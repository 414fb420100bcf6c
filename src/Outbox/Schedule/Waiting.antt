-- ===== src/Outbox/Schedule/Waiting.antt =====
-- When the scheduled sends want a flush, and that a due one is not missed by it.

use mailclient.Base.{
  ℕ, ◌≡◌, refl, Bool, false, not, ◌&&◌, ◌||◌, Option, none, some, List, [], ◌∷◌, ◌==◌, leb,
  if◌then◌else◌, arith, map, is_empty, sym,
}
use mailclient.Base.Order.{sort, insert_sorted, dedup, minimum}
use mailclient.Base.Table.{select_where}
use mailclient.Outbox.Row.{QueuedSend, Outbox, stamp, seconds, queued}
use mailclient.Outbox.Store.{due_to_queue}
use mailclient.Outbox.Schedule.{
  waits, attempt_time, waiting_scheduled, next_due, due_scheduled_account_ids,
}

-- Whether a waiting row of the table is due at an instant.
abbrev any_due : ℕ → List (ℕ × ℕ) → Bool
any_due now [] = false
any_due now ((account, at) ∷ ws) = leb (seconds at) now || any_due now ws

abbrev pub is_due : ℕ → Option ℕ → Bool
is_due now none = false
is_due now (some at) = leb (seconds at) now

is_due-minimum :
    (now : ℕ) (ws : List (ℕ × ℕ))
    → is_due now (minimum (map (λ (w : ℕ × ℕ). w.1) ws)) ≡ any_due now ws
unfolding minimum
is_due-minimum now [] = refl
is_due-minimum now ((account, at) ∷ ws) = ground (arith, is_due-minimum now ws)

is_empty-sort : (xs : List ℕ) → is_empty (sort xs) ≡ is_empty xs
unfolding sort insert_sorted
is_empty-sort [] = refl
is_empty-sort (x ∷ xs) = is_empty-insert (sort xs)
  where
    is_empty-insert : (ys : List ℕ) → is_empty (insert_sorted x ys) ≡ false
    is_empty-insert [] = refl
    is_empty-insert (y ∷ ys) = ground arith

is_empty-dedup : (xs : List ℕ) → is_empty (dedup xs) ≡ is_empty xs
unfolding dedup
is_empty-dedup [] = refl
is_empty-dedup (x ∷ xs) = refl

is_empty-any_due :
    (now : ℕ) (ws : List (ℕ × ℕ))
    → not (
        is_empty
          (map (λ (w : ℕ × ℕ). w.0) (select_where (λ (w : ℕ × ℕ). leb (seconds w.1) now) ws)))
      ≡ any_due now ws
unfolding select_where
is_empty-any_due now [] = refl
is_empty-any_due now ((account, at) ∷ ws) = ground (arith, is_empty-any_due now ws)

-- The earliest instant that the planners wait for has come exactly when some account is due.
pub next_due-due_accounts :
    (now : ℕ) (o : Outbox)
    → is_due now (next_due o) ≡ not (is_empty (due_scheduled_account_ids now o))
unfolding next_due due_scheduled_account_ids
next_due-due_accounts now o =
    rw (is_due-minimum now (waiting_scheduled o), is_empty-dedup, is_empty-sort)
      (sym (is_empty-any_due now (waiting_scheduled o)))

abbrev any_row : (QueuedSend → Bool) → List QueuedSend → Bool
any_row test [] = false
any_row test (r ∷ rows) = test r || any_row test rows

-- A waiting row of the account whose attempt is due.
abbrev pub due_row : ℕ → ℕ → QueuedSend → Bool
due_row account now r =
    (r.account_id == account)
    && (waits r && leb (seconds (attempt_time r.send_at r.next_attempt_at)) now)

-- What `promote_due` makes of a row.
abbrev promoted : ℕ → ℕ → QueuedSend → QueuedSend
promoted account now r =
    if due_to_queue account (stamp now) r
    then record r { status = queued; updated_at = stamp now }
    else r
