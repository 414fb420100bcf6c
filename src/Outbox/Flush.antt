-- ===== src/Outbox/Flush.antt =====
-- crates/mailcore/src/sync/sender/client.rs: `submit_raw`, `submit_claimed_via`, `flush_outbox` and
-- `send_self_receipt`. The server, the parsing of addresses, the clock's text and the text of an
-- error come from lettre, chrono and thiserror: they are the fields of `Smtp`. One instant stands
-- for all the times that a flush reads. The contacts and the Sent copy, which are written to other
-- tables and whose errors are only logged, are left out.
pub mod Spent
pub mod Logged
pub mod Once
pub mod Report
pub mod Outcome
mod Tests
use mailclient.Base.{
  ℕ, zero, suc, ◌+◌, String, Bool, true, false, not, Option, none, some, List, [], ◌∷◌, ◌==◌,
  if◌then◌else◌, is_empty,
}
use package.text.Mathlib.Text.{◌==◌ as str_eq}
use mailclient.Base.Results.{Result, ok, err, ◌>>=◌}
use mailclient.Errors.{StoreError, invalid_input, smtp, entry_without_mime, smtp_envelope, text}
use mailclient.Outbox.DateHeader.{Bytes, refresh_date_header}
use mailclient.Outbox.Row.{QueuedSend, Outbox, is_some}
use mailclient.Outbox.Schedule.{fail_scheduled_attempt}
use mailclient.Outbox.Store.{
  get, claim, requeue_interrupted, promote_due, prune_sent, list_submittable, update_raw_mime,
  mark_sent, mark_failed, enqueue_mime, delete,
}

-- `SmtpSender` and what it calls. An answer of the server may depend on how many submissions it
-- was handed before.
pub record Smtp (Address Envelope Connect Transport : Type 0) : Type 0 where
  pub own_address : String
  pub parse_address : String → Result StoreError Address
  pub new_envelope : Address → List Address → Result String Envelope
  pub connect_params : Result StoreError Connect
  pub build_transport : Result StoreError Transport
  -- Whether the server took the request for a delivery confirmation.
  pub send_with_dsn : ℕ → Connect → Envelope → Bytes → Result StoreError Bool
  pub send_raw : ℕ → Transport → Envelope → Bytes → Result StoreError (Unit {0})
  pub self_receipt_mime : String → QueuedSend → Result StoreError Bytes
  pub date : ℕ → Bytes
  pub to_string : StoreError → String

-- The connection that a flush keeps, and how many submissions were handed to the server.
pub record Wire (Transport : Type 0) : Type 0 where
  pub transport : Option Transport
  pub attempts : ℕ

pub record Submitted : Type 0 where
  pub dsn_unsupported : Bool
  pub raw : Bytes

-- The table, the connection, and the ids of the rows whose message the server has accepted, the
-- last one first.
pub record Session (Transport : Type 0) : Type 0 where
  pub outbox : Outbox
  pub wire : Wire Transport
  pub accepted : List ℕ

abbrev pub is_permanent : StoreError → Bool
is_permanent (smtp permanent detail) = permanent
is_permanent _ = false

-- `.filter(|b| !b.is_empty())`
abbrev stored_bytes : Option Bytes → Option Bytes
stored_bytes none = none
stored_bytes (some []) = none
stored_bytes (some (b ∷ bs)) = some (b ∷ bs)

abbrev nonempty_text : Option String → Option String
nonempty_text none = none
nonempty_text (some s) = if str_eq s "" then none else some s

-- The sender and the recipients that a row names, checked in this order.
unfoldable pub row_envelope : QueuedSend → Result StoreError (String × List String)
row_envelope row = elim (nonempty_text row.envelope_from) [
  | none ↦ err (invalid_input (text "queued send missing envelope from"))
  | some from ↦
      (if is_empty row.envelope_to
        then err (invalid_input (text "queued send has no envelope recipients"))
        else ok (from, row.envelope_to))
]

abbrev pub report : ℕ → Option StoreError → Result StoreError ℕ
report zero (some e) = err e
report n first_error = ok n

module _ {Address Envelope Connect Transport : Type 0}
    (server : Smtp Address Envelope Connect Transport) where
  -- `.collect::<Result<_, _>>()`
  parse_all : List String → Result StoreError (List Address)
  parse_all [] = ok []
  parse_all (a ∷ rest) = server.parse_address a >>= λ r. parse_all rest >>= λ rs. ok (r ∷ rs)

  abbrev envelope_for : Address → List Address → Result StoreError Envelope
  envelope_for from rcpts = elim (server.new_envelope from rcpts) [
    | ok e ↦ ok e
    | err e ↦ err (invalid_input (smtp_envelope e))
  ]

  abbrev kept_transport : Option Transport → Result StoreError Transport
  kept_transport (some t) = ok t
  kept_transport none = server.build_transport

  deliver : Envelope → Bytes → Bool → Wire Transport → Wire Transport × Result StoreError Submitted
  deliver envelope raw true w = elim server.connect_params [
    | err e ↦ (w, err e)
    | ok connect ↦ (
      record w { attempts = suc w.attempts },
      server.send_with_dsn w.attempts connect envelope raw >>= λ dsn.
          ok (record { dsn_unsupported = not dsn; raw = [] }),
    )
  ]
  deliver envelope raw false w = elim (kept_transport w.transport) [
    | err e ↦ (w, err e)
    | ok t ↦ (
      record { transport = some t; attempts = suc w.attempts },
      server.send_raw w.attempts t envelope raw >>= λ _.
          ok (record { dsn_unsupported = false; raw = [] }),
    )
  ]

  unfoldable pub submit_raw :
      String
      → List String
      → Bytes
      → Bool
      → Wire Transport
      → Wire Transport × Result StoreError Submitted
  unfolding parse_all deliver
  submit_raw from to raw request_dsn w =
      elim (server.parse_address from >>= λ from_addr.
      parse_all to >>= λ rcpts. envelope_for from_addr rcpts) [
        | err e ↦ (w, err e)
        | ok envelope ↦ deliver envelope raw request_dsn w
      ]

  -- What is kept of a failed submission: a scheduled send backs off.
  unfoldable pub record_failure : ℕ → QueuedSend → StoreError → ℕ → Outbox → Outbox
  record_failure queue_id row e now o =
      if is_some row.send_at
      then (fail_scheduled_attempt queue_id (server.to_string e) (is_permanent e) now o).0
      else (mark_failed queue_id (server.to_string e) now o).0

  -- The round trip of a row, with its bytes and its envelope, and what the outbox keeps of it.
  unfoldable pub submit_row :
      ℕ
      → QueuedSend
      → Bytes
      → String × List String
      → ℕ
      → Session Transport
      → Session Transport × Result StoreError Submitted
  unfolding submit_raw
  submit_row queue_id row raw (from, to) now s =
      let (w, result) = submit_raw from to raw row.request_dsn s.wire in
      elim result [
        | err e ↦
            (record s { outbox = record_failure queue_id row e now s.outbox; wire = w }, err e)
        | ok submitted ↦ (
          record {
            outbox = (mark_sent queue_id now s.outbox).0;
            wire = w;
            accepted = queue_id ∷ s.accepted;
          },
          ok (record submitted { raw = raw }),
        )
      ]

  -- The bytes that go out, and the table that holds them: the date of a scheduled send is renewed.
  unfoldable pub outgoing : QueuedSend → Bytes → ℕ → Bytes
  outgoing row raw now =
      if is_some row.send_at then refresh_date_header (server.date now) raw else raw

  unfoldable pub keep_outgoing : ℕ → QueuedSend → Bytes → ℕ → Outbox → Outbox
  unfolding outgoing
  keep_outgoing queue_id row raw now o =
      if is_some row.send_at then update_raw_mime queue_id (outgoing row raw now) now o else o

  unfoldable pub submit_loaded :
      ℕ → QueuedSend → ℕ → Session Transport → Session Transport × Result StoreError Submitted
  unfolding outgoing keep_outgoing submit_row
  submit_loaded queue_id row now s = elim (stored_bytes row.raw_mime) [
    | none ↦ (s, err (invalid_input (entry_without_mime queue_id)))
    | some raw ↦
        (let s' : Session Transport = record s {
          outbox = keep_outgoing queue_id row raw now s.outbox;
        } in
          elim (row_envelope row) [
            | err e ↦ (s', err e)
            | ok envelope ↦ submit_row queue_id row (outgoing row raw now) envelope now s'
          ])
  ]

  unfoldable pub submit_claimed_via :
      ℕ → ℕ → Session Transport → Session Transport × Result StoreError Submitted
  unfolding submit_loaded
  submit_claimed_via queue_id now s = elim (get queue_id s.outbox) [
    | err e ↦ (s, err e)
    | ok row ↦ submit_loaded queue_id row now s
  ]

  -- A receipt that fails is dropped.
  unfoldable pub send_self_receipt : ℕ → QueuedSend → ℕ → Session Transport → Session Transport
  unfolding submit_claimed_via
  send_self_receipt account_id orig now s =
      elim (server.self_receipt_mime server.own_address orig) [
        | err e ↦ s
        | ok raw ↦
            (let (o, id) =
                enqueue_mime account_id none raw server.own_address (server.own_address ∷ []) false
                  now s.outbox in
              let (s', result) = submit_claimed_via id now (record s { outbox = o }) in
              elim result [
                | ok submitted ↦ s'
                | err e ↦ record s' { outbox = delete id s'.outbox }
              ])
      ]

  -- The variables of the loop over the submittable rows.
  pub record Flushing : Type 0 where
    pub session : Session Transport
    pub sent_count : ℕ
    pub first_error : Option StoreError

  abbrev get_or_insert : StoreError → Option StoreError → Option StoreError
  get_or_insert e none = some e
  get_or_insert e (some first) = some first

  unfoldable pub flush_won : ℕ → QueuedSend → ℕ → Flushing → Flushing
  unfolding submit_claimed_via send_self_receipt
  flush_won account_id row now f =
      let (s, result) = submit_claimed_via row.id now f.session in
      elim result [
        | ok submitted ↦ record f {
          session = if row.notify_self then send_self_receipt account_id row now s else s;
          sent_count = suc f.sent_count;
        }
        | err e ↦ record f { session = s; first_error = get_or_insert e f.first_error }
      ]

  unfoldable pub flush_row : ℕ → QueuedSend → ℕ → Flushing → Flushing
  unfolding flush_won
  flush_row account_id row now f =
      let (o, won) = claim row.id now f.session.outbox in
      let s : Session Transport = f.session in
      let s' : Session Transport = record s { outbox = o } in
      if won
      then flush_won account_id row now (record f { session = s' })
      else record f { session = s' }

  unfoldable pub flush_rows : ℕ → List QueuedSend → ℕ → Flushing → Flushing
  unfolding flush_row
  flush_rows account_id [] now f = f
  flush_rows account_id (row ∷ rows) now f =
      flush_rows account_id rows now (flush_row account_id row now f)

  -- The steps of a flush before its loop.
  unfoldable pub prepare : ℕ → ℕ → Outbox → Outbox
  prepare account_id now o =
      (prune_sent now (promote_due account_id now (requeue_interrupted account_id now o).0).0).0

  -- Every flush opens its own connection.
  unfoldable pub flush_outbox : ℕ → ℕ → Session Transport → Session Transport × Result StoreError ℕ
  unfolding prepare flush_rows
  flush_outbox account_id now s =
      let o = prepare account_id now s.outbox in
      let w : Wire Transport = s.wire in
      let start : Session Transport = record s {
        outbox = o;
        wire = record w { transport = none };
      } in
      let f =
        flush_rows account_id (list_submittable account_id now o) now
          (record { session = start; sent_count = 0; first_error = none }) in
      (f.session, report f.sent_count f.first_error)
