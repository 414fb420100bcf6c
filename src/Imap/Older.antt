-- ===== src/Imap/Older.antt =====
-- `sync_older` of crates/mailcore/src/sync/imap/engine/sync.rs: older mail is loaded on demand.
pub mod Backfill
use mailclient.Base.{ℕ, Bool, false, not, Option, none, some, List, [], ◌∷◌, take, if◌then◌else◌}
use mailclient.Base.Order.{contains, sort, filter, reverse, maximum}
use mailclient.Base.Results.{Result}
use mailclient.Errors.{StoreError}
use mailclient.Imap.Action.{Folder, Local, Sync, ◌>>=◌, ◌>>◌, ask, reads}
use mailclient.Imap.Cache.{Row, list_uids}
use mailclient.Imap.Server.{SelectResult, Server}
use mailclient.Imap.Sync.{
  SyncReport, changed, or_else, value_or, chunks, fetch_new, sync_folder_window,
}

abbrev pub full_sync_window : ℕ
full_sync_window = 200

-- `select max(uid)`
unfoldable pub max_uid : {Content : Type 0} → List (Row Content) → Option ℕ
max_uid rows = maximum (list_uids rows)

-- The newest UIDs of the search that are not cached.
unfoldable pub missing : ℕ → List ℕ → List ℕ → List ℕ
missing batch server_uids local_uids =
    take batch (filter (λ u. not (contains u local_uids)) (reverse (sort server_uids)))

-- Only the count is refreshed, and UIDVALIDITY and UIDNEXT where there were none.
abbrev pub older_marks : SelectResult → Folder → Folder
older_marks mb f = record f {
  uid_validity = some (or_else mb.uid_validity f.uid_validity);
  uid_next = some (or_else f.uid_next mb.uid_next);
  server_total = some mb.exists;
}

unfoldable pub set_older_state : {Content : Type 0} → SelectResult → Sync Content (Unit {0})
set_older_state mb l = (record l { folder = older_marks mb l.folder }, Result.ok tt)

module _ {Content Raw : Type 0} (server : Server Raw)
    (parse : ℕ → Raw → Result StoreError Content) where
  unfoldable pub backfill : ℕ → SelectResult → ℕ → Sync Content SyncReport
  unfolding missing set_older_state
  backfill batch mb hi = do
    server_uids ← ask (server.search_range 1 hi)
    local_uids ← reads (λ l. list_uids l.rows)
    fetched ← fetch_new server parse false (chunks (sort (missing batch server_uids local_uids)))
    set_older_state mb
    reads (λ _. record { fetched = fetched; expunged = 0; folders = 0 })

  unfoldable pub sync_older : ℕ → Sync Content SyncReport
  unfolding backfill max_uid
  sync_older batch = do
    folder ← reads (λ l. l.folder)
    mb ← ask (server.select none)
    if changed mb.uid_validity folder.uid_validity
        then sync_folder_window server parse (some full_sync_window)
        else (do
          newest ← reads (λ l. max_uid l.rows)
          elim newest [
            | none ↦ sync_folder_window server parse (some full_sync_window)
            | some hi ↦ backfill batch mb hi
          ])
