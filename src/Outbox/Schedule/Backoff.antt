-- ===== src/Outbox/Schedule/Backoff.antt =====
-- A scheduled send that fails pauses longer each time, and gives up in the end.
use mailclient.Base.{
  ℕ, zero, suc, ◌+◌, ◌≤◌, ◌≡◌, refl, String, Bool, false, sym, Bool-cases, none, some, ltb, inl,
  ◌||◌, Option, List, [], ◌∷◌, ◌==◌, leb, if◌then◌else◌, arith, length, ◌⊎◌, inr,
}
use mailclient.Base.Results.{ok}
use mailclient.Base.Table.Laws.{find-update_where, find_where-test}
use mailclient.Outbox.Row.{failed, QueuedSend, Outbox, stamp, seconds, has_id}
use mailclient.Outbox.Store.{submittable, get}
use mailclient.Outbox.Store.Steps.{Holds}
use mailclient.Outbox.Schedule.{
  ScheduledFailure, retry_at, gave_up, decide, failed_attempt, fail_scheduled_attempt,
}

-- Five minutes, a quarter of an hour, an hour, then three.
abbrev pub pause_after : ℕ → ℕ
pause_after failures =
    if failures == 0
    then 300
    else if failures == 1
    then 900
    else if failures == 2
    then 3600
    else 10800

abbrev pub a_day_late : Option ℕ → ℕ → Bool
a_day_late none now = false
a_day_late (some at) now = ltb (seconds (at + 86400)) now

-- After so many failures before it, a failure is the last one.
abbrev pub is_last : ℕ → Option ℕ → Bool → ℕ → Bool
is_last failures send_at permanent now = permanent || (a_day_late send_at now || leb 4 failures)

-- The answer in terms of the failures before this one.
abbrev pub verdict : ℕ → Option ℕ → Bool → ℕ → ScheduledFailure
verdict failures send_at permanent now =
    if is_last failures send_at permanent now
    then gave_up
    else retry_at (stamp (now + seconds (pause_after failures)))

decide-verdict :
    (failures : ℕ) (send_at : Option ℕ) (permanent : Bool) (now : ℕ)
    → decide (failures + 1) send_at permanent now ≡ verdict failures send_at permanent now
unfolding decide
decide-verdict zero none permanent now = ground arith
decide-verdict (suc zero) none permanent now = ground arith
decide-verdict (suc (suc zero)) none permanent now = ground arith
decide-verdict (suc (suc (suc zero))) none permanent now = ground arith
decide-verdict (suc (suc (suc (suc n)))) none permanent now = ground arith
decide-verdict zero (some at) permanent now = ground arith
decide-verdict (suc zero) (some at) permanent now = ground arith
decide-verdict (suc (suc zero)) (some at) permanent now = ground arith
decide-verdict (suc (suc (suc zero))) (some at) permanent now = ground arith
decide-verdict (suc (suc (suc (suc n)))) (some at) permanent now = ground arith

-- The row that a failed attempt leaves.
abbrev pub after_failure : String → Bool → ℕ → QueuedSend → QueuedSend
after_failure error permanent now r = record r {
  status = failed;
  last_error = some error;
  retries = if is_last r.retries r.send_at permanent now then 5 else r.retries + 1;
  next_attempt_at =
      if is_last r.retries r.send_at permanent now
      then none
      else some (stamp (now + seconds (pause_after r.retries)));
  failure_noticed = false;
  updated_at = stamp now;
}

attempt-after_failure :
    (error : String) (permanent : Bool) (now : ℕ) (r : QueuedSend)
    → failed_attempt (r.retries + 1) (verdict r.retries r.send_at permanent now) error now r
      ≡ after_failure error permanent now r
attempt-after_failure error permanent now r =
    elim (Bool-cases (is_last r.retries r.send_at permanent now)) [
      | inl last ↦ rw (last) refl
      | inr again ↦ rw (again) refl
    ]

-- A failed attempt of a row that is there: a permanent refusal, a send more than 24 hours late
-- and the fifth failure give up, with five retries used up and no next attempt; any other
-- pauses for 5 minutes, 15 minutes, an hour or three hours, by the failures before it, which
-- grow by one. The row is failed, carries the error, is not reported yet, and is otherwise as
-- it was, its bytes and its time included.
pub attempt_outcome :
    (id : ℕ) (error : String) (permanent : Bool) (now : ℕ) (o : Outbox) (r : QueuedSend)
    → Holds id r o
    → ((fail_scheduled_attempt id error permanent now o).1
        ≡ ok (verdict r.retries r.send_at permanent now))
      × Holds id
          (after_failure error permanent now r)
          (fail_scheduled_attempt id error permanent now o).0
unfolding fail_scheduled_attempt get
attempt_outcome id error permanent now o r e =
    rw (e, fail_scheduled_attempt, get)
      (rw (decide-verdict r.retries r.send_at permanent now) (
        refl,
        rw
            (
              sym (attempt-after_failure error permanent now r),
              find-update_where (has_id id) (has_id id)
                  (failed_attempt (r.retries + 1) (verdict r.retries r.send_at permanent now) error
                    now)
                  o.rows (λ x. refl),
              e,
            )
            (ground (arith, find_where-test (has_id id) o.rows e)),
      ))

-- Failed attempts one after the other, each with its error and its instant.
unfoldable pub fail_all : ℕ → List (String × Bool × ℕ) → Outbox → Outbox
fail_all id [] o = o
fail_all id ((error, permanent, now) ∷ attempts) o =
    fail_all id attempts (fail_scheduled_attempt id error permanent now o).0

-- Nothing retries a row without retries left.
dead_row : (r : QueuedSend) (account due : ℕ) → 5 ≤ r.retries → submittable account due r ≡ false
dead_row r account due h = ground arith

-- After `length attempts` failures the retries have risen by as many, up to five.
fail_all-retries :
    (id : ℕ) (attempts : List (String × Bool × ℕ)) (o : Outbox) (r : QueuedSend)
    → Holds id r o
    → (r' : QueuedSend) × Holds id r' (fail_all id attempts o)
      × ((5 ≤ r'.retries) ⊎ (r.retries + length attempts ≤ r'.retries))
unfolding fail_all
fail_all-retries id [] o r e = (r, e, inr (omega arith))
fail_all-retries id ((error, permanent, now) ∷ attempts) o r e =
    let (result, held) = attempt_outcome id error permanent now o r e in
    let (r', e', grown) =
      fail_all-retries id attempts (fail_scheduled_attempt id error permanent now o).0
        (after_failure error permanent now r) held in
    (r', e', ground arith)

-- Five failed attempts in a row, whatever their errors and instants and whatever the row's retries
-- were, leave a row that no flush of any account submits at any time.
pub five_failures_give_up :
    (id : ℕ) (attempts : List (String × Bool × ℕ)) (o : Outbox) (r : QueuedSend) (account due : ℕ)
    → Holds id r o
    → 5 ≤ length attempts
    → (r' : QueuedSend) × Holds id r' (fail_all id attempts o)
      × (submittable account due r' ≡ false)
five_failures_give_up id attempts o r account due e many =
    let (r', e', grown) = fail_all-retries id attempts o r e in
    (r', e', dead_row r' account due (ground arith))
