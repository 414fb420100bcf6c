-- ===== src/Imap/Server.antt =====
-- The IMAP server as the sync sees it: the commands of crates/mailcore/src/sync/imap/session that
-- it sends. The answers are the server's; while one folder is synced they are taken to be those of
-- one state of the mailbox, so a command is a function of its arguments.
use mailclient.Base.{ℕ, Bool, true, false, List, [], ◌∷◌, Option}
use mailclient.Base.Results.{Result}
use mailclient.Errors.{StoreError}

pub data Flag : Type 0 where
  seen flagged draft other : Flag

-- A message as it is fetched, `raw` its bytes.
pub record Fetched (Raw : Type 0) : Type 0 where
  pub uid : ℕ
  pub flags : List Flag
  pub raw : Raw

pub record SelectResult : Type 0 where
  pub exists : ℕ
  pub uid_validity : Option ℕ
  pub uid_next : Option ℕ
  pub highest_modseq : Option ℕ
  pub vanished : List (ℕ × ℕ)

pub record Server (Raw : Type 0) : Type 0 where
  pub condstore_enabled : Bool
  pub select : Option (ℕ × ℕ) → Result StoreError SelectResult
  -- UID SEARCH of all messages, of a range of UIDs, and of a set of them.
  pub search_all : Result StoreError (List ℕ)
  pub search_range : ℕ → ℕ → Result StoreError (List ℕ)
  pub search_uids : List ℕ → Result StoreError (List ℕ)
  -- `uid_fetch_flags_changesince`
  pub fetch_flags : List ℕ → ℕ → Result StoreError (List (ℕ × List Flag))
  pub fetch_messages : List ℕ → Result StoreError (List (Fetched Raw))
  -- UID STORE +FLAGS (\Seen)
  pub store_seen : List ℕ → Result StoreError (Unit {0})

-- `flag_state` of crates/mailcore/src/sync/imap/parse.rs: read, starred and draft.
unfoldable pub flag_state : List Flag → Bool × Bool × Bool
flag_state [] = (false, false, false)
flag_state (seen ∷ flags) =
    let (read, starred, drafted) = flag_state flags in (true, starred, drafted)
flag_state (flagged ∷ flags) =
    let (read, starred, drafted) = flag_state flags in (read, true, drafted)
flag_state (draft ∷ flags) =
    let (read, starred, drafted) = flag_state flags in (read, starred, true)
flag_state (other ∷ flags) = flag_state flags
