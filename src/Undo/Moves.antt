-- ===== src/Undo/Moves.antt =====
-- crates/mailcore/src/store/pending_moves.rs, `undo` and `delete_prompt` of
-- crates/mailcore/src/undo.rs: the moves that wait out their grace period, as the list of their
-- rows. A batch is a fresh UUID, here its number. The account of a row is that of its message.
pub mod Restore
pub mod Silent
use mailclient.Base.{
  ℕ, zero, suc, ◌+◌, String, Bool, true, false, not, ◌&&◌, ◌||◌, Option, none, some, List, [], ◌∷◌,
  ◌++◌, ◌==◌, leb, if◌then◌else◌, is_empty, map,
}
use mailclient.Base.Order.{contains}
use mailclient.Base.Table.{update_where, delete_where, select_where, count_where, order_by}

pub data PendingAction : Type 0 where
  trash archive moves : PendingAction

pub record PendingRow : Type 0 where
  pub message_id : ℕ
  pub batch : ℕ
  pub action : PendingAction
  pub dest_folder_id : Option ℕ
  pub due_at : ℕ
  pub attempts : ℕ
  pub created_at : ℕ
  pub updated_at : ℕ

abbrev pub Pending : Type 0
Pending = List PendingRow

abbrev pub of_message : ℕ → PendingRow → Bool
of_message m r = r.message_id == m

abbrev pub of_batch : ℕ → PendingRow → Bool
of_batch batch r = r.batch == batch

unfoldable pub any_row : (PendingRow → Bool) → Pending → Bool
any_row test [] = false
any_row test (r ∷ rows) = test r || any_row test rows

-- `on conflict (message_id) do update`: the row keeps the time of its creation.
unfoldable pub upsert : PendingRow → Pending → Pending
unfolding any_row
upsert new rows =
    if any_row (of_message new.message_id) rows
    then update_where (of_message new.message_id)
        (λ r. record new { message_id = r.message_id; created_at = r.created_at }) rows
    else rows ++ new ∷ []

-- The row that an action inserts.
abbrev pub new_row : ℕ → PendingAction → Option ℕ → ℕ → ℕ → ℕ → PendingRow
new_row id action dest batch due now = record {
  message_id = id;
  batch = batch;
  action = action;
  dest_folder_id = dest;
  due_at = due;
  attempts = 0;
  created_at = now;
  updated_at = now;
}

unfoldable pub queue : List ℕ → PendingAction → Option ℕ → ℕ → ℕ → ℕ → Pending → Pending × ℕ
unfolding upsert
queue [] action dest batch due now rows = (rows, 0)
queue (id ∷ ids) action dest batch due now rows =
    let (rows', n) =
      queue ids action dest batch due now (upsert (new_row id action dest batch due now) rows) in
    (rows', suc n)

-- `cancel_batch`; `undo` passes its result on.
unfoldable pub cancel_batch : ℕ → Pending → Pending × ℕ
cancel_batch batch rows = (delete_where (of_batch batch) rows, count_where (of_batch batch) rows)

-- `list_due`; `account` is the account of a message.
unfoldable pub list_due : (ℕ → ℕ) → ℕ → ℕ → Pending → Pending
list_due account account_id now rows =
    order_by (λ r. r.due_at)
      (order_by (λ r. r.message_id)
        (select_where (λ r. (account r.message_id == account_id) && leb r.due_at now) rows))

unfoldable pub record_failure : List ℕ → ℕ → Pending → Pending
record_failure [] now rows = rows
record_failure (id ∷ ids) now rows = record_failure ids now (
    update_where (of_message id) (λ r. record r { attempts = r.attempts + 1; updated_at = now })
      rows)

unfoldable pub remove : List ℕ → Pending → Pending
remove [] rows = rows
remove (id ∷ ids) rows = remove ids (delete_where (of_message id) rows)

-- Whether `HIDDEN` keeps a message out of the lists.
abbrev pub is_hidden : ℕ → Pending → Bool
is_hidden m rows = any_row (of_message m) rows

pub record DeletePrompt : Type 0 where
  pub permanent : Bool
  pub ask : Bool

-- `p != Some(false)`
abbrev pub destroys : Option Bool → Bool
destroys (some false) = false
destroys _ = true

unfoldable pub any_destroys : List (Option Bool) → Bool
any_destroys [] = false
any_destroys (p ∷ ps) = destroys p || any_destroys ps

unfoldable pub delete_prompt : Bool → Bool → List (Option Bool) → DeletePrompt
unfolding any_destroys
delete_prompt confirm_pref bulk permanent =
    let lost = is_empty permanent || any_destroys permanent in
    record { permanent = lost; ask = lost || (bulk || confirm_pref) }
