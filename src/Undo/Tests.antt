-- ===== src/Undo/Tests.antt =====
-- Tests of undo, and its theorems at inputs where their hypotheses hold.
use mailclient.Base.Table.{count_where}
use mailclient.Base.{
  arith, ◌==◌, ℕ, ◌≡◌, refl, true, false, not, ◌&&◌, ◌||◌, none, some, [], ◌∷◌, leb, ◌+◌,
}
use mailclient.Outbox.Row.{stamp, seconds}
use mailclient.Undo.Grace.{Deadlines, fire, delay, due_at}
use mailclient.Undo.Grace.Coalesce.{rides, fire_takes}
use mailclient.Undo.Moves.{Pending, is_hidden, new_row, archive, any_row}
use mailclient.Base.Results.{ok, err}
use mailclient.Base.Text.{Text, codes}
use mailclient.Undo.Queue.{
  Mail, Folder, FolderRole, Message, inbox_role, trash_role, custom_role, junk_role, to_trash,
  queue_move, undo, no_longer_available, moved_to,
}
use mailclient.Undo.Queue.Outcome.{taken}
use mailclient.Undo.Queue.Single.{Ended, queue_move-Ended}
use mailclient.Undo.Queue.Bulk.{Groups, Moved, resolve_hits, queued_toast, bulk_move}
use mailclient.Undo.Queue.Bulk.OneUndo.{any_taken, Handle, bulk_move-one_undo}

-- Two actions of account 1 and one of account 2.
abbrev waiting : Deadlines
waiting = (seconds 11, 1) ∷ (seconds 11, 2) ∷ (seconds 14, 1) ∷ []

fires_once :
    (fire (seconds 10) ((seconds 10, 1) ∷ waiting)).1 ≡ (seconds 11, 2) ∷ (seconds 14, 1) ∷ []
unfolding fire
fires_once = refl

fire_takes_example :
    ((fire (seconds 10) ((seconds 10, 1) ∷ waiting)).0 ≡ some 1)
    × (count_where (λ d. d.1 == 2) (fire (seconds 10) ((seconds 10, 1) ∷ waiting)).1
        ≡ count_where (λ d. (d.1 == 2) && not (rides (seconds 10) 1 d)) waiting)
fire_takes_example =
    fire_takes (seconds 10) (seconds 10) 1 waiting (λ d. d.1 == 2) (omega arith) (omega arith)

-- Actions 1.9 seconds apart: the second one is taken off the queue with the first, and its moves
-- are not due at that moment.
coalesced_too_early :
    (let first : ℕ = 500_000_000 in
      let second : ℕ = 2_400_000_000 in
      let now : ℕ = first + delay in
      (rides (first + delay) 1 (second + delay, 1) ≡ true)
      × (leb (due_at second) (stamp now) ≡ false))
coalesced_too_early = (refl, refl)

abbrev archived : Pending
archived = new_row 4 archive none 70 9 1 ∷ []

abbrev folder : ℕ → Text → FolderRole → Folder
folder id path role = record { id = id; account_id = 1; path = path; role = role }

abbrev message : ℕ → ℕ → ℕ → Message
message id folder_id uid = record { id = id; folder_id = folder_id; uid = uid }

-- An inbox with two messages, a folder with one, junk with one and the trash.
abbrev mail : Mail
mail = record {
  folders =
      folder 1 (codes "INBOX") inbox_role
      ∷ folder 2 (codes "Work") custom_role
      ∷ folder 3 (codes "Junk") junk_role
      ∷ folder 4 (codes "Trash") trash_role
      ∷ [];
  messages = message 10 1 1 ∷ message 11 1 2 ∷ message 12 2 1 ∷ message 13 3 5 ∷ [];
}

grouped :
    resolve_hits mail 1
      ((codes "Work", 1) ∷ (codes "INBOX", 2) ∷ (codes "Work", 1) ∷ (codes "INBOX", 1) ∷ [])
    ≡ ok ((2, 1 ∷ []) ∷ (1, 2 ∷ 1 ∷ []) ∷ [])
unfolding resolve_hits
grouped = refl

abbrev spread : Groups
spread = (1, 1 ∷ []) ∷ (3, 5 ∷ []) ∷ (2, 1 ∷ []) ∷ []

abbrev result : Moved
result = record {
  batch = some 7;
  toast = queued_toast (moved_to 2 (codes "Trash"));
  lost = (3, 5 ∷ []) ∷ [];
}

bulk_move-one_undo_example :
    (let rows' = (bulk_move mail [] 1 spread to_trash 7 (seconds 5)).0 in
      let hit = any_taken mail 1 to_trash 12 spread in
      (is_hidden 12 rows' ≡ (is_hidden 12 [] || hit))
      × (is_hidden 12 (undo rows' 7).0 ≡ (is_hidden 12 [] && not hit))
      × Handle 7 [] rows' result.batch)
unfolding bulk_move any_row
bulk_move-one_undo_example =
    bulk_move-one_undo mail [] 1 spread to_trash 7 (seconds 5) 12 result refl refl

queue_move-Ended_example :
    (let moved = queue_move mail archived 1 1 (2 ∷ 1 ∷ []) to_trash 7 (seconds 5) in
      Ended 10 7 (taken mail 1 to_trash 10 (1, 2 ∷ 1 ∷ [])) archived moved.0 moved.1)
unfolding any_row
queue_move-Ended_example =
    queue_move-Ended mail archived 1 1 (2 ∷ 1 ∷ []) to_trash 7 (seconds 5) 10 refl

-- The second folder's message is gone, so the whole action is refused; the first folder's message
-- stays queued and hidden, under a batch that the caller is not told.
half_queued :
    (let moved = bulk_move mail [] 1 ((1, 1 ∷ []) ∷ (2, 9 ∷ []) ∷ []) to_trash 7 (seconds 5) in
      (moved.1 ≡ err no_longer_available) × (is_hidden 10 moved.0 ≡ true))
unfolding bulk_move any_row
half_queued = (refl, refl)
