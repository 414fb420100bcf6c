-- ===== src/Imap/Cache.antt =====
-- crates/mailcore/src/store/messages.rs and messages/flags.rs, as the sync uses them: the cached
-- messages of one folder. The statements name the folder, so the rows of other folders are left
-- out; the time of a row's last update is left out too. What a mail says, all that `parse_to_new`
-- reads from it but its flags, is a value of the type `Content`.
pub mod Lookup
use mailclient.Base.{
  ℕ, suc, Bool, true, false, not, ◌&&◌, ◌||◌, Option, none, some, List, [], ◌∷◌, ◌++◌, ◌==◌, map,
  if◌then◌else◌,
}
use mailclient.Base.Order.{contains}
use mailclient.Base.Table.{update_where, delete_where, select_where, find_where, count_where}

pub record Row (Content : Type 0) : Type 0 where
  pub uid : ℕ
  pub content : Content
  pub is_read : Bool
  pub is_starred : Bool
  pub is_draft : Bool
  -- A change of the flags that the server has not been told.
  pub flags_dirty : Bool

pub record NewMessage (Content : Type 0) : Type 0 where
  pub uid : ℕ
  pub content : Content
  pub is_read : Bool
  pub is_starred : Bool
  pub is_draft : Bool

abbrev pub differs : Bool → Bool → Bool
differs true b = not b
differs false b = b

module _ {Content : Type 0} where
  abbrev pub has_uid : ℕ → Row Content → Bool
  has_uid uid r = r.uid == uid

  unfoldable pub lookup : ℕ → List (Row Content) → Option (Row Content)
  lookup uid rows = find_where (has_uid uid) rows

  unfoldable pub list_uids : List (Row Content) → List ℕ
  list_uids rows = map (λ (r : Row Content). r.uid) rows

  unfoldable pub list_unread_uids : List (Row Content) → List ℕ
  list_unread_uids rows = map (λ (r : Row Content). r.uid) (select_where (λ r. not r.is_read) rows)

  -- The `where` clause of `set_flags_by_uid`.
  abbrev pub outdated : ℕ → Bool → Bool → Bool → Row Content → Bool
  outdated uid read starred draft r =
      has_uid uid r
      && (not r.flags_dirty
          && (differs r.is_read read || (differs r.is_starred starred || differs r.is_draft draft)))

  unfoldable pub set_flags_by_uid : ℕ → Bool → Bool → Bool → List (Row Content) → List (Row Content)
  set_flags_by_uid uid read starred draft rows =
      update_where (outdated uid read starred draft)
        (λ r. record r { is_read = read; is_starred = starred; is_draft = draft }) rows

  -- `on conflict .. do update`: a row with flags of its own keeps them, but for the draft flag.
  abbrev pub merged : NewMessage Content → Row Content → Row Content
  merged m r = record {
    uid = r.uid;
    content = m.content;
    is_read = if r.flags_dirty then r.is_read else m.is_read;
    is_starred = if r.flags_dirty then r.is_starred else m.is_starred;
    is_draft = m.is_draft;
    flags_dirty = r.flags_dirty;
  }

  abbrev pub inserted : NewMessage Content → Row Content
  inserted m = record {
    uid = m.uid;
    content = m.content;
    is_read = m.is_read;
    is_starred = m.is_starred;
    is_draft = m.is_draft;
    flags_dirty = false;
  }

  unfoldable pub upsert : NewMessage Content → List (Row Content) → List (Row Content)
  unfolding lookup
  upsert m rows = elim (lookup m.uid rows) [
    | none ↦ rows ++ inserted m ∷ []
    | some r ↦ update_where (has_uid m.uid) (merged m) rows
  ]

  unfoldable pub delete_by_uid : ℕ → List (Row Content) → List (Row Content)
  delete_by_uid uid rows = delete_where (has_uid uid) rows

  -- `uid in (..)`
  abbrev pub named : List ℕ → Row Content → Bool
  named uids r = contains r.uid uids

  unfoldable pub delete_many_by_uids : List ℕ → List (Row Content) → List (Row Content)
  delete_many_by_uids uids rows = delete_where (named uids) rows

  -- The number of rows that it deletes.
  unfoldable pub count_by_uids : List ℕ → List (Row Content) → ℕ
  count_by_uids uids rows = count_where (named uids) rows

  abbrev pub clean_unread : List ℕ → Row Content → Bool
  clean_unread uids r = not r.is_read && (not r.flags_dirty && named uids r)

  unfoldable pub set_read_clean_by_uids : List ℕ → Bool → List (Row Content) → List (Row Content)
  set_read_clean_by_uids uids queue_push rows =
      update_where (clean_unread uids) (λ r. record r { is_read = true; flags_dirty = queue_push })
        rows
