-- ===== src/Outbox/Tests.antt =====
-- Tests of the outbox on concrete tables, and its theorems at inputs where their hypotheses hold.
use mailclient.Base.{
  ℕ, ◌≡◌, refl, String, Bool, not, false, none, some, List, [], ◌∷◌, arith, is_empty,
}
use mailclient.Base.Results.{ok, ◌>>=◌}
use mailclient.Base.Table.{find_where, count_where}
use mailclient.Outbox.Row.{queued, sending, scheduled, QueuedSend, Outbox, has_id, seconds}
use mailclient.Outbox.Store.{
  claim, mark_sent, reschedule, send_now, normalize_future_send_at, submittable,
}
use mailclient.Outbox.Store.Steps.{claims, requeues, promotes, prunes, Holds, claimed}
use mailclient.Outbox.Store.Ownership.{claim_exclusive}
use mailclient.Outbox.Schedule.Writes.{
  Write, does, fails_due, marks_failed, dismisses, writes, removed,
}
use mailclient.Outbox.Schedule.Writes.Stays.{Stays}
use mailclient.Outbox.Store.Early.{scheduled_waits}
use mailclient.Outbox.Store.Final.{delivered, sent_is_final}
use mailclient.Outbox.Store.Outcomes.{
  refusal, or_refused, After, waiting_until, reschedule_outcome, queued_now, send_now_outcome,
}
use mailclient.Outbox.Schedule.{fail_scheduled_attempt, due_scheduled_account_ids, next_due}
use mailclient.Outbox.Schedule.Backoff.{
  verdict, after_failure, attempt_outcome, fail_all, five_failures_give_up,
}
use mailclient.Outbox.Schedule.Waiting.{next_due-due_accounts, is_due}

-- A row of account 1, composed at second 1000.
abbrev base_row : QueuedSend
base_row = record {
  id = 1;
  account_id = 1;
  message_id = none;
  status = queued;
  last_error = none;
  retries = 0;
  raw_mime = some (65 ∷ 66 ∷ []);
  envelope_from = some "me@example.com";
  envelope_to = "you@example.org" ∷ [];
  created_at = 1000;
  updated_at = 1000;
  send_at = none;
  request_dsn = false;
  notify_self = false;
  next_attempt_at = none;
  failure_noticed = false;
}

abbrev later_row : QueuedSend
later_row = record base_row { id = 2; status = scheduled; send_at = some 5000 }

abbrev two_rows : Outbox
two_rows = record { rows = base_row ∷ later_row ∷ []; next_id = 3 }

abbrev busy_row : Outbox
busy_row = record { rows = record base_row { status = sending } ∷ []; next_id = 2 }

-- Two flushes, the failure of all due rows, a stalled submitter of a row 7, and the user.
abbrev traffic : List (ℕ × Write)
traffic =
    (seconds 1200, does (requeues 1))
    ∷ (seconds 1300, fails_due 1 "offline")
    ∷ (seconds 1400, marks_failed 7 "timeout")
    ∷ (seconds 1500, dismisses 1 1)
    ∷ (seconds 2000, does (promotes 1))
    ∷ (seconds 2100, does (claims 1))
    ∷ (seconds 2100, does prunes)
    ∷ []

-- The first row is dismissed while it is being sent, to no effect.
claim_exclusive_example :
    ((r : QueuedSend) × Holds 1 r two_rows
      × Stays 1
          (claimed (seconds 1100) r)
          (removed (claimed (seconds 1100) r) traffic)
          (writes traffic (claim 1 (seconds 1100) two_rows).0))
    × ((claim 1 (seconds 9000) (writes traffic (claim 1 (seconds 1100) two_rows).0)).1 ≡ false)
unfolding claim count_where
claim_exclusive_example =
    claim_exclusive 1 (seconds 1100) (seconds 9000) two_rows traffic (omega arith) refl
      (omega arith) (ground arith)

sent_is_final_example :
    ((r : QueuedSend) × Holds 1 r busy_row
      × Stays 1
          (delivered (seconds 1100) r)
          (removed (delivered (seconds 1100) r) traffic)
          (writes traffic (mark_sent 1 (seconds 1100) busy_row).0))
    × ((claim 1 (seconds 9000) (writes traffic (mark_sent 1 (seconds 1100) busy_row).0)).1 ≡ false)
unfolding mark_sent count_where
sent_is_final_example =
    sent_is_final 1 (seconds 1100) (seconds 9000) busy_row traffic (omega arith) refl (ground arith)

-- A claim of the first row, and then the user drops the second.
abbrev traffic_and_dismissal : List (ℕ × Write)
traffic_and_dismissal = (seconds 1200, does (claims 1)) ∷ (seconds 2200, dismisses 1 2) ∷ []

scheduled_waits_example :
    Stays 2 later_row
      (removed later_row traffic_and_dismissal)
      (writes traffic_and_dismissal two_rows)
    × ((claim 2 (seconds 9000) (writes traffic_and_dismissal two_rows)).1 ≡ false)
unfolding find_where
scheduled_waits_example =
    scheduled_waits 2 5000 (seconds 9000) traffic_and_dismissal two_rows later_row (omega arith)
      refl refl refl (omega arith) (ground arith)

reschedule_outcome_example :
    ((reschedule 1 2 (some (seconds 9000)) (seconds 2000) two_rows).1 ≡ (
      normalize_future_send_at (some (seconds 9000)) (seconds 2000) >>= λ t.
      or_refused t (refusal 1 2 (find_where (has_id 2) two_rows.rows))))
    × After 2
        (λ t. waiting_until t (seconds 2000))
        two_rows
        (reschedule 1 2 (some (seconds 9000)) (seconds 2000) two_rows).0
        (reschedule 1 2 (some (seconds 9000)) (seconds 2000) two_rows).1
reschedule_outcome_example =
    reschedule_outcome 1 2 (some (seconds 9000)) (seconds 2000) two_rows (omega arith)

send_now_outcome_example :
    ((send_now 1 2 (seconds 2000) two_rows).1
      ≡ or_refused tt (refusal 1 2 (find_where (has_id 2) two_rows.rows)))
    × After 2
        (λ _. queued_now (seconds 2000))
        two_rows
        (send_now 1 2 (seconds 2000) two_rows).0
        (send_now 1 2 (seconds 2000) two_rows).1
send_now_outcome_example = send_now_outcome 1 2 (seconds 2000) two_rows (omega arith)

attempt_outcome_example :
    ((fail_scheduled_attempt 2 "offline" false (seconds 5100) two_rows).1
      ≡ ok (verdict 0 (some 5000) false (seconds 5100)))
    × Holds 2
        (after_failure "offline" false (seconds 5100) later_row)
        (fail_scheduled_attempt 2 "offline" false (seconds 5100) two_rows).0
unfolding find_where
attempt_outcome_example = attempt_outcome 2 "offline" false (seconds 5100) two_rows later_row refl

abbrev five_times : List (String × Bool × ℕ)
five_times =
    ("a", false, 1) ∷ ("b", false, 2) ∷ ("c", false, 3) ∷ ("d", false, 4) ∷ ("e", false, 5) ∷ []

five_failures_give_up_example :
    (r' : QueuedSend) × Holds 2 r' (fail_all 2 five_times two_rows)
    × (submittable 1 9000 r' ≡ false)
unfolding find_where
five_failures_give_up_example =
    five_failures_give_up 2 five_times two_rows later_row 1 9000 refl (omega arith)

next_due-due_accounts_example :
    is_due (seconds 6000) (next_due two_rows)
    ≡ not (is_empty (due_scheduled_account_ids (seconds 6000) two_rows))
next_due-due_accounts_example = next_due-due_accounts (seconds 6000) two_rows
