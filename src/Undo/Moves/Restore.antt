-- ===== src/Undo/Moves/Restore.antt =====
-- Queueing hides the messages of an action, and undo shows them again.
use mailclient.Base.{
  ℕ, ◌≡◌, refl, Bool, true, false, not, ◌&&◌, ◌||◌, Option, List, [], ◌∷◌, ◌++◌, ◌==◌, arith,
  Bool-cases, ==_iff, inl, inr,
}
use mailclient.Base.Order.{contains}
use mailclient.Base.Table.{update_where, delete_where}
use mailclient.Undo.Moves.{
  PendingAction, PendingRow, Pending, of_message, of_batch, any_row, upsert, queue, cancel_batch,
  is_hidden, new_row,
}

-- A row of a message that another batch put there.
abbrev pub elsewhere : ℕ → ℕ → PendingRow → Bool
elsewhere m batch r = of_message m r && not (of_batch batch r)

any-append :
    (test : PendingRow → Bool) (rows : Pending) (r : PendingRow)
    → any_row test (rows ++ r ∷ []) ≡ (any_row test rows || test r)
unfolding any_row
any-append test [] r = ground arith
any-append test (x ∷ rows) r = ground (arith, any-append test rows r)

pub any-delete_where :
    (m batch : ℕ) (rows : Pending)
    → any_row (of_message m) (delete_where (of_batch batch) rows) ≡ any_row (elsewhere m batch) rows
unfolding any_row delete_where
any-delete_where m batch [] = refl
any-delete_where m batch (r ∷ rows) = ground (arith, any-delete_where m batch rows)

-- The update of a conflict hides what was hidden.
any-update_hidden :
    (m : ℕ) (new : PendingRow) (rows : Pending)
    → any_row (of_message m) (
        update_where
          (of_message new.message_id)
          (λ r. record new { message_id = r.message_id; created_at = r.created_at })
          rows)
      ≡ any_row (of_message m) rows
unfolding any_row update_where
any-update_hidden m new [] = refl
any-update_hidden m new (r ∷ rows) = ground (arith, any-update_hidden m new rows)

any-update_elsewhere :
    (m : ℕ) (new : PendingRow) (rows : Pending)
    → any_row (elsewhere m new.batch) (
        update_where
          (of_message new.message_id)
          (λ r. record new { message_id = r.message_id; created_at = r.created_at })
          rows)
      ≡ (any_row (elsewhere m new.batch) rows && not (new.message_id == m))
unfolding any_row update_where
any-update_elsewhere m new [] = refl
any-update_elsewhere m new (r ∷ rows) = ground (arith, any-update_elsewhere m new rows)

none_elsewhere :
    (m batch : ℕ) (rows : Pending)
    → any_row (of_message m) rows ≡ false
    → any_row (elsewhere m batch) rows ≡ false
unfolding any_row
none_elsewhere m batch [] h = refl
none_elsewhere m batch (r ∷ rows) h = ground (arith, none_elsewhere m batch rows)

-- Rows of other batches only.
pub fresh_elsewhere :
    (m batch : ℕ) (rows : Pending)
    → any_row (of_batch batch) rows ≡ false
    → any_row (elsewhere m batch) rows ≡ any_row (of_message m) rows
unfolding any_row
fresh_elsewhere m batch [] h = refl
fresh_elsewhere m batch (r ∷ rows) h = ground (arith, fresh_elsewhere m batch rows)

same_message :
    (a m : ℕ) (rows : Pending)
    → (a == m) ≡ true
    → any_row (of_message a) rows ≡ any_row (of_message m) rows
same_message a m rows h = rw ((==_iff a m).0 h) refl

upsert-hidden :
    (m : ℕ) (new : PendingRow) (rows : Pending)
    → any_row (of_message m) (upsert new rows)
      ≡ (any_row (of_message m) rows || (new.message_id == m))
unfolding upsert
upsert-hidden m new rows =
    let same = same_message new.message_id m rows in
    elim (Bool-cases (any_row (of_message new.message_id) rows)) [
      | inl there ↦ rw (there) (ground (arith, any-update_hidden m new rows))
      | inr absent ↦ rw (absent) (any-append (of_message m) rows new)
    ]

upsert-elsewhere :
    (m : ℕ) (new : PendingRow) (rows : Pending)
    → any_row (elsewhere m new.batch) (upsert new rows)
      ≡ (any_row (elsewhere m new.batch) rows && not (new.message_id == m))
unfolding upsert
upsert-elsewhere m new rows =
    let same = same_message new.message_id m rows in
    elim (Bool-cases (any_row (of_message new.message_id) rows)) [
      | inl there ↦ rw (there) (any-update_elsewhere m new rows)
      | inr absent ↦ rw (absent) (
          ground
            (arith, any-append (elsewhere m new.batch) rows new, none_elsewhere m new.batch rows))
    ]

pub queue-hidden :
    (m : ℕ) (ids : List ℕ) (action : PendingAction) (dest : Option ℕ) (batch due now : ℕ)
    (rows : Pending)
    → is_hidden m (queue ids action dest batch due now rows).0
      ≡ (is_hidden m rows || contains m ids)
unfolding queue contains
queue-hidden m [] action dest batch due now rows = ground arith
queue-hidden m (id ∷ ids) action dest batch due now rows =
    (let new = new_row id action dest batch due now in
      ground (
        arith,
        queue-hidden m ids action dest batch due now (upsert new rows),
        upsert-hidden m new rows,
      ))

pub queue-elsewhere :
    (m : ℕ) (ids : List ℕ) (action : PendingAction) (dest : Option ℕ) (batch due now : ℕ)
    (rows : Pending)
    → any_row (elsewhere m batch) (queue ids action dest batch due now rows).0
      ≡ (any_row (elsewhere m batch) rows && not (contains m ids))
unfolding queue contains
queue-elsewhere m [] action dest batch due now rows = ground arith
queue-elsewhere m (id ∷ ids) action dest batch due now rows =
    (let new = new_row id action dest batch due now in
      ground (
        arith,
        queue-elsewhere m ids action dest batch due now (upsert new rows),
        upsert-elsewhere m new rows,
      ))

-- Queueing an action hides its messages and no other; undoing its fresh batch shows these messages
-- again, also those that an earlier action had hidden, and leaves every other one as it was.
pub undo_restores :
    (m : ℕ) (ids : List ℕ) (action : PendingAction) (dest : Option ℕ) (batch due now : ℕ)
    (rows : Pending)
    → any_row (of_batch batch) rows ≡ false
    → (let queued = (queue ids action dest batch due now rows).0 in
        (is_hidden m queued ≡ (is_hidden m rows || contains m ids))
        × (is_hidden m (cancel_batch batch queued).0 ≡ (is_hidden m rows && not (contains m ids))))
unfolding cancel_batch
undo_restores m ids action dest batch due now rows fresh =
    let queued = (queue ids action dest batch due now rows).0 in
    (
      queue-hidden m ids action dest batch due now rows,
      rw
          (
            any-delete_where m batch queued,
            queue-elsewhere m ids action dest batch due now rows,
            fresh_elsewhere m batch rows fresh,
          )
          refl,
    )
