-- ===== src/Undo/Queue/Bulk/OneUndo.antt =====
-- A move across folders is one undo.
use mathlib.Core.Path.{subst}
use mailclient.Base.{
  ℕ, ◌≡◌, refl, sym, ◌∙◌, Bool, true, false, not, ◌&&◌, ◌||◌, Option, none, some, List, [], ◌∷◌,
  Bool-cases, inl, inr, is_none,
}
use mailclient.Base.Results.{Result, ok, err, Result-cases}
use mailclient.Base.Text.{Text}
use mailclient.Undo.Grace.{undo_grace_secs}
use mailclient.Undo.Moves.{PendingAction, Pending, is_hidden, any_row, of_batch, cancel_batch}
use mailclient.Undo.Moves.Restore.{any-delete_where, fresh_elsewhere}
use mailclient.Undo.Queue.{
  Mail, MoveTarget, QueueError, Share, pending_share, permanent, already_there, queue_into, undo,
}
use mailclient.Undo.Queue.Outcome.{
  Effect, nothing-Effect, Effect-trans, taken, queue_into-Effect, queue_into-still, err_ok,
  is_pending,
}
use mailclient.Undo.Queue.Bulk.{
  Group, Groups, Tally, Moved, gather, queue_groups, bulk_move, moved, moved_of, no_tally,
}

-- The message is one that the action moves from one of the folders.
unfoldable pub any_taken : Mail → ℕ → MoveTarget → ℕ → Groups → Bool
any_taken db account_id target m [] = false
any_taken db account_id target m (g ∷ groups) =
    taken db account_id target m g || any_taken db account_id target m groups

ok_same : {t t' : Tally} → ◌≡◌ {A = Result QueueError Tally} (ok t) (ok t') → t ≡ t'
ok_same e = cc

ok_moved : {x y : Moved} → ◌≡◌ {A = Result QueueError Moved} (ok x) (ok y) → x ≡ y
ok_moved e = cc

contradiction : true ≡ false → ⊥
contradiction e = cc

module _ (db : Mail) (account_id : ℕ) (target : MoveTarget) (batch now : ℕ) where
  next :
      (rows : Pending) (folder_id : ℕ) (uids : List ℕ) (groups : Groups) (t : Tally) (share : Share)
      → (queue_into db rows account_id folder_id uids target batch undo_grace_secs now).1 ≡ ok share
      → queue_groups db rows account_id ((folder_id, uids) ∷ groups) target batch now t
        ≡ queue_groups db
            (queue_into db rows account_id folder_id uids target batch undo_grace_secs now).0
            account_id
            groups
            target
            batch
            now
            (gather t (folder_id, uids) share)
  unfolding queue_groups
  next rows folder_id uids groups t share e = rw (queue_groups, e) refl

  stopped :
      (rows : Pending) (folder_id : ℕ) (uids : List ℕ) (groups : Groups) (t : Tally)
      (x : QueueError)
      → (queue_into db rows account_id folder_id uids target batch undo_grace_secs now).1 ≡ err x
      → (queue_groups db rows account_id ((folder_id, uids) ∷ groups) target batch now t).1 ≡ err x
  unfolding queue_groups
  stopped rows folder_id uids groups t x e = rw (queue_groups, e) refl

  queue_groups-Effect :
      (m : ℕ) (rows : Pending) (groups : Groups) (t t' : Tally)
      → (queue_groups db rows account_id groups target batch now t).1 ≡ ok t'
      → Effect m batch
          (any_taken db account_id target m groups)
          rows
          (queue_groups db rows account_id groups target batch now t).0
  unfolding queue_groups any_taken
  queue_groups-Effect m rows [] t t' e = nothing-Effect m batch rows
  queue_groups-Effect m rows ((folder_id, uids) ∷ groups) t t' e =
      let ran = queue_into db rows account_id folder_id uids target batch undo_grace_secs now in
      elim (Result-cases ran.1) [
        | inr (x, bad) ↦ absurd (err_ok (sym (stopped rows folder_id uids groups t x bad) ∙ e))
        | inl (share, good) ↦
            (let t₁ = gather t (folder_id, uids) share in
              let step = next rows folder_id uids groups t share good in
              rw (step) (
                Effect-trans
                  (queue_into-Effect db rows account_id folder_id uids target batch undo_grace_secs
                    now m share good)
                  (queue_groups-Effect m ran.0 groups t₁ t' (rw (step) at e))))
      ]

  gather-some :
      (t : Tally) (g : Group) (share : Share)
      → is_none t.queued ≡ false
      → is_none (gather t g share).queued ≡ false
  unfolding gather
  gather-some t g (pending_share n action place) h = refl
  gather-some t g permanent h = h
  gather-some t g already_there h = h

  gather-pending :
      (t : Tally) (g : Group) (share : Share)
      → is_pending share ≡ true
      → is_none (gather t g share).queued ≡ false
  unfolding gather
  gather-pending t g (pending_share n action place) h = refl
  gather-pending t g permanent h = cc
  gather-pending t g already_there h = cc

  -- What was queued stays queued.
  queued_stays :
      (rows : Pending) (groups : Groups) (t t' : Tally)
      → (queue_groups db rows account_id groups target batch now t).1 ≡ ok t'
      → is_none t.queued ≡ false
      → is_none t'.queued ≡ false
  unfolding queue_groups
  queued_stays rows [] t t' e h = rw (ok_same e) at h
  queued_stays rows ((folder_id, uids) ∷ groups) t t' e h =
      let ran = queue_into db rows account_id folder_id uids target batch undo_grace_secs now in
      elim (Result-cases ran.1) [
        | inr (x, bad) ↦ absurd (err_ok (sym (stopped rows folder_id uids groups t x bad) ∙ e))
        | inl (share, good) ↦
            queued_stays ran.0 groups (gather t (folder_id, uids) share) t'
              (rw (next rows folder_id uids groups t share good) at e)
              (gather-some t (folder_id, uids) share h)
      ]

  nothing_queued :
      (rows : Pending) (groups : Groups) (t t' : Tally)
      → (queue_groups db rows account_id groups target batch now t).1 ≡ ok t'
      → is_none t'.queued ≡ true
      → (queue_groups db rows account_id groups target batch now t).0 ≡ rows
  unfolding queue_groups
  nothing_queued rows [] t t' e h = refl
  nothing_queued rows ((folder_id, uids) ∷ groups) t t' e h =
      let ran = queue_into db rows account_id folder_id uids target batch undo_grace_secs now in
      elim (Result-cases ran.1) [
        | inr (x, bad) ↦ absurd (err_ok (sym (stopped rows folder_id uids groups t x bad) ∙ e))
        | inl (share, good) ↦
            (let t₁ = gather t (folder_id, uids) share in
              let step = next rows folder_id uids groups t share good in
              let e₁ = rw (step) at e in
              elim (Bool-cases (is_pending share)) [
                | inl queued ↦ absurd (
                    contradiction (
                      sym h
                      ∙ queued_stays ran.0 groups t₁ t' e₁
                          (gather-pending t (folder_id, uids) share queued)))
                | inr still ↦ rw (step) (
                    nothing_queued ran.0 groups t₁ t' e₁ h
                    ∙ queue_into-still db rows account_id folder_id uids target batch
                        undo_grace_secs now share still good)
              ])
      ]

-- The handle of the undo, or none when nothing was queued.
abbrev pub Handle : ℕ → Pending → Pending → Option ℕ → Type 0
Handle batch rows rows' none = rows' ≡ rows
Handle batch rows rows' (some b) = b ≡ batch

moved_of-Handle :
    (batch : ℕ) (rows rows' : Pending) (t : Tally) (queued : Option (PendingAction × Text))
    → (is_none queued ≡ true → rows' ≡ rows)
    → Handle batch rows rows' (moved_of batch t queued).batch
unfolding moved_of
moved_of-Handle batch rows rows' t none still = still refl
moved_of-Handle batch rows rows' t (some (action, place)) still = refl

bulk_move-ok :
    (db : Mail) (rows : Pending) (account_id : ℕ) (groups : Groups) (target : MoveTarget)
    (batch now : ℕ) (x : Moved)
    → (bulk_move db rows account_id groups target batch now).1 ≡ ok x
    → (t : Tally) × ((queue_groups db rows account_id groups target batch now no_tally).1 ≡ ok t)
      × (moved batch t ≡ x)
unfolding bulk_move
bulk_move-ok db rows account_id groups target batch now x e =
    elim (Result-cases (queue_groups db rows account_id groups target batch now no_tally).1) [
      | inr (y, bad) ↦ absurd (err_ok (rw (bad, bulk_move) at e))
      | inl (t, good) ↦ (t, good, ok_moved (rw (good, bulk_move) at e))
    ]

-- One undo takes back a move across folders: with a fresh batch, a move that succeeds hides, of
-- each folder from which the target leads somewhere, the cached messages with the given UIDs,
-- and no other; undoing the batch shows these again, also those that an earlier action had
-- hidden, and leaves every other message as it was. Without a handle for the undo, nothing was
-- queued.
pub bulk_move-one_undo :
    (db : Mail) (rows : Pending) (account_id : ℕ) (groups : Groups) (target : MoveTarget)
    (batch now m : ℕ) (x : Moved)
    → any_row (of_batch batch) rows ≡ false
    → (bulk_move db rows account_id groups target batch now).1 ≡ ok x
    → (let rows' = (bulk_move db rows account_id groups target batch now).0 in
        let hit = any_taken db account_id target m groups in
        (is_hidden m rows' ≡ (is_hidden m rows || hit))
        × (is_hidden m (undo rows' batch).0 ≡ (is_hidden m rows && not hit))
        × Handle batch rows rows' x.batch)
unfolding bulk_move undo moved cancel_batch
bulk_move-one_undo db rows account_id groups target batch now m x fresh e =
    let (t, ran, made) = bulk_move-ok db rows account_id groups target batch now x e in
    let done = queue_groups-Effect db account_id target batch now m rows groups no_tally t ran in
    let rows' = (queue_groups db rows account_id groups target batch now no_tally).0 in
    (
      done.hides,
      rw (any-delete_where m batch rows', done.keeps, fresh_elsewhere m batch rows fresh) refl,
      subst (λ (y : Moved). Handle batch rows rows' y.batch) made
          (moved_of-Handle batch rows rows' t t.queued
            (nothing_queued db account_id target batch now rows groups no_tally t ran)),
    )
