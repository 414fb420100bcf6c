-- ===== src/Imap/Toggles.antt =====
-- The flags that a user toggles: set_flags, list_flags_dirty and clear_flags_dirty of
-- crates/mailcore/src/store/messages/flags.rs, and push_dirty_flags of
-- crates/mailcore/src/sync/imap/engine/sync.rs, with what else happens while it runs.
pub mod Settled
pub mod Latest
mod Tests
use mailclient.Base.{
  ℕ, Bool, true, false, not, ◌&&◌, Option, none, some, List, [], ◌∷◌, ◌==◌, if◌then◌else◌, is_empty,
}
use mailclient.Base.Table.{update_where, select_where, find_where}

pub record Message : Type 0 where
  pub id : ℕ
  pub is_read : Bool
  pub is_starred : Bool
  pub flags_dirty : Bool

abbrev pub same : Bool → Bool → Bool
same true b = b
same false b = not b

abbrev pub has_id : ℕ → Message → Bool
has_id id m = m.id == id

-- The assignments of the three statements.
abbrev pub set_by_user : Bool → Bool → Message → Message
set_by_user read starred m = record {
  id = m.id;
  is_read = read;
  is_starred = starred;
  flags_dirty = true;
}

abbrev pub set_clean : Message → Message
set_clean m = record {
  id = m.id;
  is_read = m.is_read;
  is_starred = m.is_starred;
  flags_dirty = false;
}

abbrev pub set_pulled : Bool × Bool → Message → Message
set_pulled (read, starred) m = record {
  id = m.id;
  is_read = read;
  is_starred = starred;
  flags_dirty = m.flags_dirty;
}

unfoldable pub set_flags : ℕ → Bool → Bool → List Message → List Message
set_flags id read starred rows = update_where (has_id id) (set_by_user read starred) rows

-- `order by folder_id, uid` is left out: the rows here carry neither.
unfoldable pub list_flags_dirty : List Message → List Message
list_flags_dirty rows = select_where (λ (m : Message). m.flags_dirty) rows

-- The `where` clause of `clear_flags_dirty`.
abbrev pub pushed : ℕ → Bool → Bool → Message → Bool
pushed id read starred m = has_id id m && (same m.is_read read && same m.is_starred starred)

unfoldable pub clear_flags_dirty : ℕ → Bool → Bool → List Message → List Message
clear_flags_dirty id read starred rows = update_where (pushed id read starred) set_clean rows

-- What a sync writes of the flags that the server tells.
abbrev pub pulls : ℕ → Message → Bool
pulls id m = has_id id m && not m.flags_dirty

unfoldable pub pull_flags : ℕ → Bool × Bool → List Message → List Message
pull_flags id flags rows = update_where (pulls id) (set_pulled flags) rows

-- The table, the flags that the server has, the messages that a running push has left to push, and
-- the one that it has stored but not cleared yet.
pub record State : Type 0 where
  pub rows : List Message
  pub remote : ℕ → Bool × Bool
  pub left : List Message
  pub stored : Option Message

pub data Event : Type 0 where
  -- The user's click, at any time.
  toggle : ℕ → Bool → Bool → Event
  -- The push lists the dirty messages; stores one; fails to, with some of its commands carried out;
  -- and clears the one that it has stored.
  list store : Event
  store_fails : Bool × Bool → Event
  clear : Event
  -- A sync reads the flags of a message, when no push runs: both use the account's session.
  pull : ℕ → Event

abbrev pub remember : ℕ → Bool × Bool → (ℕ → Bool × Bool) → ℕ → Bool × Bool
remember id flags remote n = if n == id then flags else remote n

unfoldable pub step : Event → State → State
unfolding set_flags list_flags_dirty clear_flags_dirty pull_flags
step (toggle id read starred) s = record {
  rows = set_flags id read starred s.rows;
  remote = s.remote;
  left = s.left;
  stored = s.stored;
}
step list s = elim s.left [
  | [] ↦ elim s.stored [
    | none ↦ record {
      rows = s.rows;
      remote = s.remote;
      left = list_flags_dirty s.rows;
      stored = none;
    }
    | some m ↦ s
  ]
  | m ∷ left ↦ s
]
step store s = elim s.stored [
  | some m ↦ s
  | none ↦ elim s.left [
    | [] ↦ s
    | m ∷ left ↦ record {
      rows = s.rows;
      remote = remember m.id (m.is_read, m.is_starred) s.remote;
      left = left;
      stored = some m;
    }
  ]
]
step (store_fails flags) s = elim s.stored [
  | some m ↦ s
  | none ↦ elim s.left [
    | [] ↦ s
    | m ∷ left ↦ record {
      rows = s.rows;
      remote = remember m.id flags s.remote;
      left = left;
      stored = none;
    }
  ]
]
step clear s = elim s.stored [
  | none ↦ s
  | some m ↦ record {
    rows = clear_flags_dirty m.id m.is_read m.is_starred s.rows;
    remote = s.remote;
    left = s.left;
    stored = none;
  }
]
step (pull id) s = elim s.left [
  | m ∷ left ↦ s
  | [] ↦ elim s.stored [
    | some m ↦ s
    | none ↦ record {
      rows = pull_flags id (s.remote id) s.rows;
      remote = s.remote;
      left = [];
      stored = none;
    }
  ]
]

-- No push runs.
abbrev pub idle : List Message → (ℕ → Bool × Bool) → State
idle rows remote = record { rows = rows; remote = remote; left = []; stored = none }

unfoldable pub run : List Event → State → State
unfolding step
run [] s = s
run (e ∷ events) s = run events (step e s)
