-- ===== src/Imap/Sync.antt =====
-- `sync_folder_window` of crates/mailcore/src/sync/imap/engine/sync.rs: the cache of one folder is
-- brought in line with the server. Contacts, attachment names and progress reports, which go to
-- other tables or to the screen, are left out, and so is the case in which the server refuses
-- CHANGEDSINCE and the session stops using it.
pub mod Marks
pub mod Chunks
pub mod Loops
pub mod Flags
pub mod Fetches
pub mod Vanished
pub mod Steps
pub mod Refines
pub mod Whole
mod Tests
use mathlib.Core.Option
use mailclient.Base.{
  ℕ, zero, suc, ◌+◌, ◌-◌, Bool, true, false, not, ◌&&◌, ◌||◌, Option, none, some, List, [], ◌∷◌,
  ◌++◌, ltb, leb, ◌==◌, if◌then◌else◌, length, is_empty, take, drop,
}
use mailclient.Base.Order.{contains, sort, filter}
use mailclient.Base.Results.{Result, ok, err, ◌>>=◌ as and_so}
use mailclient.Errors.{StoreError}
use mailclient.Imap.Action.{Folder, Local, Sync, ◌>>=◌, ◌>>◌, ask, reads, writes, when}
use mailclient.Imap.Cache.{
  Row, NewMessage, list_uids, list_unread_uids, set_flags_by_uid, upsert, delete_by_uid,
  delete_many_by_uids, count_by_uids, set_read_clean_by_uids,
}
use mailclient.Imap.Search.{search_recent_uids, union}
use mailclient.Imap.Server.{Flag, Fetched, SelectResult, Server, flag_state}

pub record SyncReport : Type 0 where
  pub fetched : ℕ
  pub expunged : ℕ
  pub folders : ℕ

abbrev pub fetch_chunk : ℕ
fetch_chunk = 100

abbrev pub or_else : Option ℕ → Option ℕ → ℕ
or_else none none = 0
or_else none (some b) = b
or_else (some a) b = a

abbrev pub value_or : Option ℕ → ℕ → ℕ
value_or none d = d
value_or (some a) d = a

abbrev pub same_some : Option ℕ → Option ℕ → Bool
same_some (some a) (some b) = a == b
same_some _ _ = false

-- UIDVALIDITY is known on both sides and differs.
abbrev pub changed : Option ℕ → Option ℕ → Bool
changed (some a) (some b) = not (a == b)
changed _ _ = false

-- `slice::chunks`; each chunk takes an element at least, so the length is fuel enough.
unfoldable pub chunks_from : ℕ → ℕ → List ℕ → List (List ℕ)
chunks_from zero size uids = []
chunks_from (suc fuel) size [] = []
chunks_from (suc fuel) size (u ∷ uids) =
    take size (u ∷ uids) ∷ chunks_from fuel size (drop size (u ∷ uids))

unfoldable pub chunks : List ℕ → List (List ℕ)
unfolding chunks_from
chunks uids = chunks_from (length uids) fetch_chunk uids

unfoldable pub in_vanished : List (ℕ × ℕ) → ℕ → Bool
in_vanished [] u = false
in_vanished ((lo, hi) ∷ ranges) u = (leb lo u && leb u hi) || in_vanished ranges u

unfoldable pub folder_unchanged : Folder → SelectResult → ℕ → Option ℕ → Bool
folder_unchanged folder mb cached window =
    let wanted = elim window as (λ _. ℕ) [
      | none ↦ mb.exists
      | some n ↦ if leb n mb.exists then n else mb.exists
    ] in
    leb wanted cached
    && (ltb 0 folder.highest_modseq
        && (same_some mb.highest_modseq (some folder.highest_modseq)
            && (same_some mb.uid_next folder.uid_next
                && (same_some mb.uid_validity folder.uid_validity
                    && same_some folder.server_total (some mb.exists)))))

-- The newest `n`, or all.
unfoldable pub relevant : Option ℕ → List ℕ → Option (List ℕ)
relevant none server_uids = none
relevant (some n) server_uids = some (drop (length server_uids - n) (sort server_uids))

abbrev pub in_window : Option (List ℕ) → ℕ → Bool
in_window none u = true
in_window (some uids) u = contains u uids

module _ {Content : Type 0} where
  unfoldable pub apply_flags : Bool → List (ℕ × List Flag) → List (Row Content) → List (Row Content)
  apply_flags is_trash [] rows = rows
  apply_flags is_trash ((uid, flags) ∷ answers) rows =
      let (read, starred, draft) = flag_state flags in
      apply_flags is_trash answers
        (set_flags_by_uid uid ((read || is_trash) || draft) starred draft rows)

  unfoldable pub delete_each : List (List ℕ) → Sync Content ℕ
  delete_each [] = λ l. (l, ok 0)
  delete_each (chunk ∷ rest) = do
    deleted ← reads (λ l. count_by_uids chunk l.rows)
    writes (delete_many_by_uids chunk)
    n ← delete_each rest
    reads (λ _. deleted + n)

  -- Deletes what the searched range of UIDs no longer has.
  unfoldable pub expunge : ℕ → List ℕ → List ℕ → Sync Content ℕ
  expunge search_lo server_uids [] = λ l. (l, ok 0)
  expunge search_lo server_uids (u ∷ local_uids) = do
    let gone = leb search_lo u && not (contains u server_uids)
    when gone (writes (delete_by_uid u))
    n ← expunge search_lo server_uids local_uids
    reads (λ _. (if gone then suc n else n))

  unfoldable pub set_sync_state : SelectResult → ℕ → Sync Content (Unit {0})
  set_sync_state mb modseq l =
      let f : Folder = l.folder in
      (
        record l {
          folder = record f {
            uid_validity = some (or_else mb.uid_validity f.uid_validity);
            uid_next = some (or_else mb.uid_next f.uid_next);
            server_total = some mb.exists;
            highest_modseq = modseq;
          };
        },
        ok tt,
      )

module _ {Raw : Type 0} (server : Server Raw) where
  unfoldable pub search_each : List (List ℕ) → Result StoreError (List ℕ)
  search_each [] = ok []
  search_each (chunk ∷ rest) =
      and_so (server.search_uids chunk) λ uids. and_so (search_each rest) λ more. ok (uids ++ more)

module _ {Content Raw : Type 0} (server : Server Raw) where
  unfoldable pub refresh_flags : Bool → ℕ → List (List ℕ) → Sync Content (Unit {0})
  unfolding apply_flags
  refresh_flags is_trash since [] = λ l. (l, ok tt)
  refresh_flags is_trash since (chunk ∷ rest) = do
    answers ← ask (server.fetch_flags chunk since)
    writes (apply_flags is_trash answers)
    refresh_flags is_trash since rest

  -- QRESYNC VANISHED: the cached UIDs in the ranges are asked about once more.
  unfoldable pub drop_vanished : List (ℕ × ℕ) → Sync Content ℕ
  unfolding search_each delete_each in_vanished chunks filter
  drop_vanished vanished = do
    named ← reads (λ l. filter (in_vanished vanished) (list_uids l.rows))
    still_there ← ask (search_each server (chunks named))
    delete_each (chunks (filter (λ u. not (contains u still_there)) named))

  -- The failure of the STORE is only logged: the rows are then marked for the flag push.
  unfoldable pub sweep_trash_seen : Sync Content (Unit {0})
  sweep_trash_seen l =
      let unread = list_unread_uids l.rows in
      let queue_push = elim (server.store_seen unread) as (λ _. Bool) [
        | ok _ ↦ false
        | err _ ↦ true
      ] in
      if is_empty unread
      then (l, ok tt)
      else (record l { rows = set_read_clean_by_uids unread queue_push l.rows }, ok tt)

  unfoldable pub unchanged_path : Folder → SelectResult → Sync Content SyncReport
  unfolding sweep_trash_seen set_sync_state
  unchanged_path folder mb = do
    when folder.is_trash sweep_trash_seen
    set_sync_state mb (value_or mb.highest_modseq folder.highest_modseq)
    reads (λ _. record { fetched = 0; expunged = 0; folders = 0 })

module _ {Content Raw : Type 0} (server : Server Raw)
    (parse : ℕ → Raw → Result StoreError Content) where
  -- `parse_to_new`, and the mark of a mail in the trash.
  unfoldable pub new_message : Bool → Fetched Raw → Result StoreError (NewMessage Content)
  new_message is_trash f =
      let (read, starred, draft) = flag_state f.flags in
      and_so (parse f.uid f.raw) λ content. ok (record {
        uid = f.uid;
        content = content;
        is_read = is_trash || (read || draft);
        is_starred = starred;
        is_draft = draft;
      })

  unfoldable pub store_messages : Bool → List (Fetched Raw) → Sync Content ℕ
  unfolding new_message
  store_messages is_trash [] = λ l. (l, ok 0)
  store_messages is_trash (f ∷ fetched) = do
    m ← ask (new_message is_trash f)
    writes (upsert m)
    n ← store_messages is_trash fetched
    reads (λ _. suc n)

  unfoldable pub fetch_new : Bool → List (List ℕ) → Sync Content ℕ
  unfolding store_messages
  fetch_new is_trash [] = λ l. (l, ok 0)
  fetch_new is_trash (chunk ∷ rest) = do
    fetched ← ask (server.fetch_messages chunk)
    n ← store_messages is_trash fetched
    m ← fetch_new is_trash rest
    reads (λ _. n + m)

  -- Steps 2 to 6 of the sync: `local_uids` are the cached UIDs of this mailbox, `old_uids` those of
  -- the mailbox before a change of UIDVALIDITY.
  unfoldable pub sync_changes :
      Folder
      → SelectResult
      → Bool
      → List ℕ
      → List ℕ
      → ℕ
      → List ℕ
      → ℕ
      → Option (List ℕ)
      → Sync Content SyncReport
  unfolding refresh_flags fetch_new delete_each expunge sweep_trash_seen set_sync_state chunks
      filter
  sync_changes folder mb validity_changed old_uids local_uids vanished server_uids search_lo
        newest =
      let flags_since =
        if server.condstore_enabled && not validity_changed then folder.highest_modseq else 0 in
      do
        refresh_flags server folder.is_trash flags_since
            (chunks (filter (λ u. contains u local_uids && in_window newest u) server_uids))
        when (server.condstore_enabled && ltb 0 folder.highest_modseq) (
            refresh_flags server folder.is_trash folder.highest_modseq
              (chunks (filter (λ u. not (in_window newest u)) local_uids)))
        fetched ← fetch_new folder.is_trash (
            chunks
              (sort (filter (λ u. not (contains u local_uids) && in_window newest u) server_uids)))
        purged ←
            delete_each
              (chunks (filter (λ u. validity_changed && not (contains u server_uids)) old_uids))
        expunged ← expunge search_lo server_uids local_uids
        when folder.is_trash (sweep_trash_seen server)
        set_sync_state mb
            (value_or mb.highest_modseq (if validity_changed then 0 else folder.highest_modseq))
        reads (λ _. record { fetched = fetched; expunged = vanished + expunged; folders = 0 })

  -- The sync once the folder is selected.
  unfoldable pub sync_selected : Option ℕ → Folder → SelectResult → Sync Content SyncReport
  unfolding drop_vanished filter folder_unchanged unchanged_path relevant sync_changes
  sync_selected window folder mb =
      let validity_changed = changed mb.uid_validity folder.uid_validity in
      do
        old_uids ← reads (λ l. (if validity_changed then list_uids l.rows else []))
        vanished ← drop_vanished server mb.vanished
        local_uids ← reads (λ l.
            filter (λ u. not validity_changed || not (contains u old_uids)) (list_uids l.rows))
        if not validity_changed
              && (is_empty mb.vanished && folder_unchanged folder mb (length local_uids) window)
            then unchanged_path server folder mb
            else (do
              (server_uids, search_lo) ← ask (search_recent_uids server window mb.uid_next)
              sync_changes folder mb validity_changed old_uids local_uids vanished server_uids
                  search_lo (relevant window server_uids))

  unfoldable pub sync_folder_window : Option ℕ → Sync Content SyncReport
  unfolding sync_selected
  sync_folder_window window = do
    folder ← reads (λ l. l.folder)
    mb ← ask (server.select (Option.map (λ v. (v, folder.highest_modseq)) folder.uid_validity))
    sync_selected window folder mb
