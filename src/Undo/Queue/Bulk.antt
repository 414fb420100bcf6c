-- ===== src/Undo/Queue/Bulk.antt =====
-- crates/mailcore/src/bulk.rs: actions on a selection that spans folders. The flag writes and the
-- purge of the IMAP engine are not modelled. One instant stands for the times of one call.
pub mod OneUndo
use mailclient.Base.{
  ℕ, ◌+◌, Bool, true, false, Option, none, some, List, [], ◌∷◌, ◌++◌, ◌==◌, ◌&&◌, if◌then◌else◌,
  is_empty,
}
use mailclient.Base.Order.{contains}
use mailclient.Base.Results.{Result, ok, err}
use mailclient.Base.Table.{find_where}
use mailclient.Base.Text.{Text}
use mailclient.Base.Strings.{same_text}
use mailclient.Undo.Grace.{undo_grace_secs}
use mailclient.Undo.Moves.{PendingAction, Pending}
use mailclient.Undo.Queue.{
  Mail, Folder, MoveTarget, QueueError, Share, pending_share, permanent, already_there, queue_into,
  Label, label, unknown_target,
}

-- `(folder_id, uids)`
abbrev pub Group : Type 0
Group = ℕ × List ℕ

abbrev pub Groups : Type 0
Groups = List Group

abbrev pub Hit : Type 0
Hit = Text × ℕ

-- A hit joins the folder that is there, or opens it at the end.
unfoldable pub add_hit : List (Text × List ℕ) → Hit → List (Text × List ℕ)
unfolding same_text contains
add_hit [] (path, uid) = (path, uid ∷ []) ∷ []
add_hit ((p, uids) ∷ rest) (path, uid) =
    let others = add_hit rest (path, uid) in
    if same_text p path
    then (p, if contains uid uids then uids else uids ++ uid ∷ []) ∷ rest
    else (p, uids) ∷ others

unfoldable pub by_path : List (Text × List ℕ) → List Hit → List (Text × List ℕ)
unfolding add_hit
by_path groups [] = groups
by_path groups (hit ∷ hits) = by_path (add_hit groups hit) hits

-- `folders::get_by_path`
unfoldable pub get_by_path : Mail → ℕ → Text → Option Folder
unfolding find_where same_text
get_by_path db account_id path =
    find_where (λ (f : Folder). (f.account_id == account_id) && same_text f.path path) db.folders

unfoldable pub resolve : Mail → ℕ → List (Text × List ℕ) → Result QueueError Groups
unfolding get_by_path
resolve db account_id [] = ok []
resolve db account_id ((path, uids) ∷ rest) = elim (get_by_path db account_id path) [
  | none ↦ err unknown_target
  | some f ↦ elim (resolve db account_id rest) [
    | err e ↦ err e
    | ok groups ↦ ok ((f.id, uids) ∷ groups)
  ]
]

unfoldable pub resolve_hits : Mail → ℕ → List Hit → Result QueueError Groups
unfolding resolve by_path
resolve_hits db account_id hits = resolve db account_id (by_path [] hits)

-- What the loop has gathered: `out.permanent`, `queued` and `count`.
pub record Tally : Type 0 where
  pub lost : Groups
  pub queued : Option (PendingAction × Text)
  pub count : ℕ

-- `get_or_insert`
abbrev pub first_of : Option (PendingAction × Text) → PendingAction × Text → PendingAction × Text
first_of none p = p
first_of (some q) p = q

unfoldable pub gather : Tally → Group → Share → Tally
gather t g (pending_share n action place) = record {
  lost = t.lost;
  queued = some (first_of t.queued (action, place));
  count = t.count + n;
}
gather t g permanent = record { lost = t.lost ++ g ∷ []; queued = t.queued; count = t.count }
gather t g already_there = t

unfoldable pub queue_groups :
    Mail → Pending → ℕ → Groups → MoveTarget → ℕ → ℕ → Tally → Pending × Result QueueError Tally
unfolding queue_into gather
queue_groups db rows account_id [] target batch now t = (rows, ok t)
queue_groups db rows account_id ((folder_id, uids) ∷ groups) target batch now t =
    let (rows', r) =
      queue_into db rows account_id folder_id uids target batch undo_grace_secs now in
    elim r [
      | err e ↦ (rows', err e)
      | ok share ↦
          queue_groups db rows' account_id groups target batch now
            (gather t (folder_id, uids) share)
    ]

-- The toast of a move across folders.
pub data Toast : Type 0 where
  queued_toast : Label → Toast
  already_here no_toast : Toast

pub record Moved : Type 0 where
  pub batch : Option ℕ
  pub toast : Toast
  pub lost : Groups

unfoldable pub moved_of : ℕ → Tally → Option (PendingAction × Text) → Moved
unfolding label
moved_of batch t (some (action, place)) = record {
  batch = some batch;
  toast = queued_toast (label action t.count place);
  lost = t.lost;
}
moved_of batch t none = record {
  batch = none;
  toast = (if is_empty t.lost then already_here else no_toast);
  lost = t.lost;
}

unfoldable pub moved : ℕ → Tally → Moved
unfolding moved_of
moved batch t = moved_of batch t t.queued

abbrev pub no_tally : Tally
no_tally = record { lost = []; queued = none; count = 0 }

-- `bulk::queue_move`
unfoldable pub bulk_move :
    Mail → Pending → ℕ → Groups → MoveTarget → ℕ → ℕ → Pending × Result QueueError Moved
unfolding queue_groups moved
bulk_move db rows account_id groups target batch now =
    let (rows', r) = queue_groups db rows account_id groups target batch now no_tally in
    (rows', elim r [ err e ↦ err e | ok t ↦ ok (moved batch t) ])
