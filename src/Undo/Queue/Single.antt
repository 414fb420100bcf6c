-- ===== src/Undo/Queue/Single.antt =====
-- A move of messages of one folder, by how it ends.
use mailclient.Base.{ℕ, ◌≡◌, refl, Bool, false, not, ◌&&◌, ◌||◌, List, inl, inr}
use mailclient.Base.Results.{Result, ok, err, Result-cases}
use mailclient.Undo.Grace.{undo_grace_secs}
use mailclient.Undo.Moves.{Pending, is_hidden, any_row, of_batch, cancel_batch}
use mailclient.Undo.Moves.Restore.{any-delete_where, fresh_elsewhere}
use mailclient.Undo.Queue.{
  Mail, MoveTarget, QueueError, Share, pending_share, permanent, already_there, queue_into, Queued,
  queued_pending, queued_permanent, queued_already_there, outcome, queue_with_grace, queue_move,
  undo,
}
use mailclient.Undo.Queue.Outcome.{
  Effect, taken, queue_into-Effect, queue_into-still, queue_into-err, is_pending,
}

-- How a move ends: refused, permanent and already there change nothing; a pending one is known by
-- its batch, hides the message if it is one of those moved, and shows it again when it is undone.
abbrev pub Ended : ℕ → ℕ → Bool → Pending → Pending → Result QueueError Queued → Type 0
Ended m batch hit rows rows' (err e) = rows' ≡ rows
Ended m batch hit rows rows' (ok queued_permanent) = rows' ≡ rows
Ended m batch hit rows rows' (ok queued_already_there) = rows' ≡ rows
Ended m batch hit rows rows' (ok (queued_pending handle count toast)) =
    (handle ≡ batch)
    × (is_hidden m rows' ≡ (is_hidden m rows || hit))
    × (is_hidden m (undo rows' batch).0 ≡ (is_hidden m rows && not hit))

share-Ended :
    (m batch : ℕ) (hit : Bool) (rows rows' : Pending) (share : Share)
    → any_row (of_batch batch) rows ≡ false
    → Effect m batch hit rows rows'
    → (is_pending share ≡ false → rows' ≡ rows)
    → Ended m batch hit rows rows' (outcome batch (ok share))
unfolding undo cancel_batch
share-Ended m batch hit rows rows' (pending_share n action place) fresh e still = (
  refl,
  e.hides,
  rw (any-delete_where m batch rows', e.keeps, fresh_elsewhere m batch rows fresh) refl,
)
share-Ended m batch hit rows rows' permanent fresh e still = still refl
share-Ended m batch hit rows rows' already_there fresh e still = still refl

-- A move with a fresh batch that is refused, destroys or has nowhere to go changes nothing. Any
-- other is known by its batch, hides the cached messages of the folder with the given UIDs and
-- no other, and undoing it shows these again, also those that an earlier action had hidden, and
-- leaves every other message as it was.
pub queue_move-Ended :
    (db : Mail) (rows : Pending) (account_id folder_id : ℕ) (uids : List ℕ) (target : MoveTarget)
    (batch now m : ℕ)
    → any_row (of_batch batch) rows ≡ false
    → (let moved = queue_move db rows account_id folder_id uids target batch now in
        Ended m batch (taken db account_id target m (folder_id, uids)) rows moved.0 moved.1)
unfolding queue_move queue_with_grace
queue_move-Ended db rows account_id folder_id uids target batch now m fresh =
    let ran = queue_into db rows account_id folder_id uids target batch undo_grace_secs now in
    let hit = taken db account_id target m (folder_id, uids) in
    elim (Result-cases ran.1) [
      | inr (x, bad) ↦
          rw (bad) (
            queue_into-err db rows account_id folder_id uids target batch undo_grace_secs now x bad)
      | inl (share, good) ↦ rw (good) (
          share-Ended m batch hit rows ran.0 share fresh
            (queue_into-Effect db rows account_id folder_id uids target batch undo_grace_secs now m
              share good)
            (λ still.
              queue_into-still db rows account_id folder_id uids target batch undo_grace_secs now
                share still good))
    ]
