-- ===== src/Undo/Queue.antt =====
-- `queue_move` of crates/mailcore/src/undo.rs with what it calls of store/messages.rs: an action on
-- messages of one folder becomes rows of `pending_moves`. The folders of the database are the list
-- in the order in which `list_by_account` shows them; of a folder and of a message those columns
-- are modelled that are read here. The words of the toast are its parts.
pub mod Outcome
pub mod Single
pub mod Bulk
use mailclient.Base.{
  ℕ, ◌+◌, Bool, true, false, not, ◌&&◌, ◌||◌, Option, none, some, List, [], ◌∷◌, ◌++◌, ◌==◌,
  if◌then◌else◌, is_empty, length, map,
}
use mailclient.Base.Order.{sort, dedup, contains}
use mailclient.Base.Results.{Result, ok, err, ok_or}
use mailclient.Base.Table.{select_where, find_where, order_by}
use mailclient.Base.Text.{Text, codes}
use mailclient.Base.Strings.{same_text}
use mailclient.Imap.Sync.{chunks_from}
use mailclient.Outbox.Row.{stamp, seconds}
use mailclient.Undo.Grace.{undo_grace_secs}
use mailclient.Undo.Moves.{PendingAction, trash, archive, moves, Pending, queue, cancel_batch}

pub data FolderRole : Type 0 where
  inbox_role sent_role drafts_role trash_role junk_role archive_role custom_role : FolderRole

pub record Folder : Type 0 where
  pub id : ℕ
  pub account_id : ℕ
  pub path : Text
  pub role : FolderRole

pub record Message : Type 0 where
  pub id : ℕ
  pub folder_id : ℕ
  pub uid : ℕ

-- The tables that an action reads; the one that it changes is `Pending`.
pub record Mail : Type 0 where
  pub folders : List Folder
  pub messages : List Message

pub data MoveTarget : Type 0 where
  to_trash to_archive : MoveTarget
  to_folder : Text → MoveTarget

-- The refusals, by their texts.
pub data QueueError : Type 0 where
  no_messages_selected unknown_folder other_account unknown_target no_longer_available : QueueError

pub data Share : Type 0 where
  pending_share : ℕ → PendingAction → Text → Share
  permanent already_there : Share

abbrev pub is_junk : FolderRole → Bool
is_junk junk_role = true
is_junk _ = false

abbrev pub is_trash : FolderRole → Bool
is_trash trash_role = true
is_trash _ = false

abbrev pub is_archive : FolderRole → Bool
is_archive archive_role = true
is_archive _ = false

abbrev pub other_trash : Folder → Folder → Bool
other_trash src f = is_trash f.role && not (f.id == src.id)

abbrev pub is_missing : Option Folder → Bool
is_missing none = true
is_missing (some f) = false

unfoldable pub delete_is_permanent : Folder → List Folder → Bool
unfolding find_where
delete_is_permanent src folders =
    is_junk src.role || is_missing (find_where (other_trash src) folders)

-- `folders::get` and `list_by_account`
unfoldable pub get_folder : ℕ → Mail → Option Folder
unfolding find_where
get_folder id db = find_where (λ (f : Folder). f.id == id) db.folders

unfoldable pub list_by_account : ℕ → Mail → List Folder
unfolding select_where
list_by_account account_id db = select_where (λ (f : Folder). f.account_id == account_id) db.folders

unfoldable pub of_chunk : ℕ → List ℕ → Message → Bool
unfolding contains
of_chunk folder_id chunk m = (m.folder_id == folder_id) && contains m.uid chunk

unfoldable pub ids_of_chunks : ℕ → List Message → List (List ℕ) → List ℕ
unfolding order_by select_where of_chunk
ids_of_chunks folder_id rows [] = []
ids_of_chunks folder_id rows (chunk ∷ rest) =
    map (λ (m : Message). m.id)
      (order_by (λ (m : Message). m.uid) (select_where (of_chunk folder_id chunk) rows))
    ++ ids_of_chunks folder_id rows rest

unfoldable pub ids_by_uids : ℕ → List ℕ → List Message → List ℕ
unfolding ids_of_chunks sort dedup chunks_from
ids_by_uids folder_id uids rows =
    let clean = dedup (sort uids) in
    ids_of_chunks folder_id rows (chunks_from (length clean) 900 clean)

-- Where the target leads from the folder: an action with its destination and its name, or an end.
pub data Course : Type 0 where
  goes : PendingAction → Option ℕ → Text → Course
  stops : Share → Course

abbrev pub path_of : Option Folder → Text
path_of none = []
path_of (some f) = f.path

abbrev pub archive_course : Folder → Option Folder → Course
archive_course src none = goes archive none (codes "Archive")
archive_course src (some a) =
    if a.id == src.id then stops already_there else goes archive (some a.id) a.path

abbrev pub folder_course : Folder → Option Folder → Result QueueError Course
folder_course src none = err unknown_target
folder_course src (some dest) =
    if dest.id == src.id then ok (stops already_there) else ok (goes moves (some dest.id) dest.path)

unfoldable pub course : Folder → List Folder → MoveTarget → Result QueueError Course
unfolding delete_is_permanent find_where same_text
course src known to_trash =
    if delete_is_permanent src known
    then ok (stops permanent)
    else ok (goes trash none (path_of (find_where (other_trash src) known)))
course src known to_archive = ok (archive_course src (find_where (λ f. is_archive f.role) known))
course src known (to_folder path) =
    folder_course src (find_where (λ f. same_text f.path path) known)

-- The rows of an action that goes somewhere; `now` is the instant of the call.
unfoldable pub insert_rows :
    Pending → List ℕ → Course → ℕ → ℕ → ℕ → Pending × Result QueueError Share
unfolding queue
insert_rows rows ids (stops share) batch grace_secs now = (rows, ok share)
insert_rows rows [] (goes action dest place) batch grace_secs now = (rows, err no_longer_available)
insert_rows rows (id ∷ ids) (goes action dest place) batch grace_secs now =
    let due = stamp (now + seconds grace_secs) in
    let (rows', n) = queue (id ∷ ids) action dest batch due (stamp now) rows in
    (rows', ok (pending_share n action place))

-- The checks before: the folder, its account, the target.
unfoldable pub course_of : Mail → ℕ → ℕ → List ℕ → MoveTarget → Result QueueError Course
unfolding get_folder list_by_account course
course_of db account_id folder_id uids target =
    if is_empty uids then err no_messages_selected else elim (get_folder folder_id db) [
      | none ↦ err unknown_folder
      | some src ↦
          if src.account_id == account_id
          then course src (list_by_account account_id db) target
          else err other_account
    ]

unfoldable pub queue_into :
    Mail → Pending → ℕ → ℕ → List ℕ → MoveTarget → ℕ → ℕ → ℕ → Pending × Result QueueError Share
unfolding course_of insert_rows ids_by_uids
queue_into db rows account_id folder_id uids target batch grace_secs now =
    elim (course_of db account_id folder_id uids target) [
      | err e ↦ (rows, err e)
      | ok way ↦ insert_rows rows (ids_by_uids folder_id uids db.messages) way batch grace_secs now
    ]

-- The parts of `label`.
pub data Label : Type 0 where
  archived_to moved_to : ℕ → Text → Label

unfoldable pub label : PendingAction → ℕ → Text → Label
label archive count place = archived_to count place
label trash count place = moved_to count place
label moves count place = moved_to count place

pub data Queued : Type 0 where
  queued_pending : ℕ → ℕ → Label → Queued
  queued_permanent queued_already_there : Queued

abbrev pub outcome : ℕ → Result QueueError Share → Result QueueError Queued
outcome batch (err e) = err e
outcome batch (ok (pending_share count action place)) =
    ok (queued_pending batch count (label action count place))
outcome batch (ok permanent) = ok queued_permanent
outcome batch (ok already_there) = ok queued_already_there

-- `batch` is the fresh UUID.
unfoldable pub queue_with_grace :
    Mail → Pending → ℕ → ℕ → List ℕ → MoveTarget → ℕ → ℕ → ℕ → Pending × Result QueueError Queued
unfolding queue_into label
queue_with_grace db rows account_id folder_id uids target grace_secs batch now =
    let (rows', r) = queue_into db rows account_id folder_id uids target batch grace_secs now in
    (rows', outcome batch r)

unfoldable pub queue_move :
    Mail → Pending → ℕ → ℕ → List ℕ → MoveTarget → ℕ → ℕ → Pending × Result QueueError Queued
unfolding queue_with_grace
queue_move db rows account_id folder_id uids target batch now =
    queue_with_grace db rows account_id folder_id uids target undo_grace_secs batch now

unfoldable pub queue_move_now :
    Mail → Pending → ℕ → ℕ → List ℕ → MoveTarget → ℕ → ℕ → Pending × Result QueueError Queued
unfolding queue_with_grace
queue_move_now db rows account_id folder_id uids target batch now =
    queue_with_grace db rows account_id folder_id uids target 0 batch now

unfoldable pub undo : Pending → ℕ → Pending × ℕ
unfolding cancel_batch
undo rows batch = cancel_batch batch rows
