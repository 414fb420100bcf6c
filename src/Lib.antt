-- ===== src/Lib.antt =====
-- Verification library of mailclient, an IMAP and SMTP mail client whose core is in Rust
-- (crates/mailcore) and is shared by a Qt, an Android and a Flutter frontend.
--
-- The program's parts that are modelled, and how they interact
--
-- The outbox is the table `send_queue`: every message to be sent is a row, with its bytes and its
-- envelope, and moves between the statuses queued, sending, sent, failed and scheduled. Several
-- processes (the app, a background service, a command line sync) work on the same database. A
-- flush requeues rows that a crash left behind, promotes scheduled sends that are due, claims row
-- after row and submits each one; a scheduled send that fails is retried with pauses and given up
-- after five failures or a day. Planners ask the table when the next flush is wanted.
--   Outbox/Row       models.rs, db/schema.sql: the row and the clock
--   Outbox/Store     store/queue.rs: one definition per function, by the function's name; the
--                    SQL of a function is a test and an update on the list of rows. Steps has the
--                    operations that need no claim, as a sequence of them
--   Outbox/Page      outbox.rs: dismiss, and the rows that go with a deleted account
--   Outbox/Schedule  store/queue.rs: fail_scheduled_attempt and the functions below it. Writes has
--                    every statement on the table as a sequence of them: those of Steps, the
--                    deletions, and the writes addressed to a row by its id
--   Outbox/Keys      row ids: how an operation may change the table
--   Outbox/DateHeader  sync/sender/scheduled.rs: refresh_date_header, find_slice
--   Outbox/Flush     sync/sender/client.rs: submit_raw, submit_claimed_via, flush_outbox,
--                    send_self_receipt, over a session of the table, the connection and the log of
--                    the rows that the server accepted
-- The frontends' jobs share pooled IMAP sessions; an account that is edited evicts its session.
--   Sync/Pool        sync/pool.rs: checkout_session (as take_session and open_session, since
--                    other jobs run while it connects), SessionLease::checkin and drop,
--                    evict_session, drop_all_sessions; a run is a list of events
--   Sync/Accounts    sync/pool.rs: resolve_account, job_account
-- A sync of a folder asks the server what has changed, and writes the cache of the folder's
-- messages and, at its end, the marks that the next sync starts from.
--   Imap/Cache       store/messages.rs, store/messages/flags.rs: the statements that a sync uses
--   Imap/Server      the commands that a sync sends, with their answers; flag_state of
--                    sync/imap/parse.rs
--   Imap/Search      sync/imap/search.rs: search_recent_uids, search_paged
--   Imap/Action      a step of a sync: the cache and the folder's row, with a result
--   Imap/Sync        sync/imap/engine/sync.rs: sync_folder_window by its steps
--   Imap/Older       sync/imap/engine/sync.rs: sync_older
--   Imap/Toggles     store/messages/flags.rs and push_dirty_flags of sync/imap/engine/sync.rs: the
--                    flags that a user toggles while they are pushed
--   Imap/Mailbox     what a server that answers about one state of a mailbox tells
-- Mailbox names travel in modified UTF-7.
--   Imap/Utf7, Imap/Base64, Imap/Utf16  sync/imap/utf7.rs and the UTF-16 coding of std
--   Imap/Sequences   sync/imap/seq.rs: vanished_ranges
--   Imap/Paths       sync/imap/roles.rs: normalize_folder_path
-- The search field's text is read once into terms and filters, which become an expression for the
-- full-text index; the message list has its own filters.
--   Search/Query     search.rs: parse_query_full by the rounds of its loop, with its helpers
--   Search/Fts       search.rs: fts_term, fts_query, fts_exclusions
--   Search/Dates     search.rs: the date bounds, the presets and the plan of the search field
--   Search/ListFilter  search/list_filter.rs: ListFilter::keep, keep_in_folder, date_range_check
-- Calendars and contact cards are made of content lines.
--   Content/Lines    content_line.rs
--   Content/Times    calendar/time.rs: parse_duration_seconds
-- Deleting, archiving and moving can be undone: the messages are hidden by rows of
-- `pending_moves`, which a timer's push carries out at the end of a grace period.
--   Undo/Moves       store/pending_moves.rs, and delete_prompt of undo.rs
--   Undo/Queue       undo.rs: queue_move, queue_move_now, queue_into, undo; ids_by_uids of
--                    store/messages.rs, get of store/folders.rs
--   Undo/Queue/Bulk  bulk.rs: resolve_hits, queue_move (as bulk_move)
--   Undo/Grace       undo/grace.rs: the timer's queue of deadlines and a round of its loop
-- In the background each account checks at its own interval, over a push connection or by polling,
-- but not in its quiet hours.
--   Background/QuietHours, Background/Times  store/account_settings/quiet_hours.rs: the window and
--                    its changes, and the texts of times
--   Background/Schedule  sync/background/schedule.rs: plan_at, due_accounts_at and the rest
-- The paths are below crates/mailcore/src. Base holds what the parts share, with the laws of SQL
-- statements on lists of rows in Base/Table; Errors is error.rs.
--
-- Conventions, bounds and fuel
--
-- An instant is a number of nanoseconds, a stored time its whole seconds (`stamp`), as the store
-- writes it. Natural numbers stand for row ids, counts and sizes that stay far below the width of
-- their machine type; the pool's generation counter wraps at 2^64. The decoder of modified UTF-7
-- runs on fuel, the length of its input: every round consumes a character; so does the parser of
-- search queries. All other loops are
-- structural recursions: the search of pages goes over at most 8 pages, and the chunks of a list of
-- UIDs are cut on fuel, the length of the list. A HashSet is a list without repetitions, whose
-- order no theorem depends on, a HashMap is a function, a BinaryHeap the list of its entries in the
-- order in which it gives them.
--
-- Not modelled
--
-- Errors of SQLite itself; the network, the SMTP and IMAP servers and the parsing of addresses,
-- which are parameters (`Smtp`) or arguments; one instant stands for all the times that a flush
-- reads; contacts and the Sent copy, which a flush writes after a message was accepted and whose
-- errors are only logged. While one folder is synced, the answers of the server are those of one
-- state of the mailbox; the server that refuses CHANGEDSINCE, contacts, attachment names and
-- progress reports are left out of a sync. A time zone is what chrono answers about it. The
-- Unicode tables of letters and of lower case and chrono's days are parameters of the search, and
-- SQLite's full-text index is left out; the flag writes and the purge of bulk.rs are not modelled,
-- nor are cards, events and the other times of a calendar. The rest of the IMAP engine, composing
-- and the frontends have no model here.

pub mod Background
pub mod Base
pub mod Content
pub mod Errors
pub mod Imap
pub mod Outbox
pub mod Search
pub mod Sync
pub mod Undo
