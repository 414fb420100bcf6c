-- ===== src/Outbox/Schedule.antt =====
-- crates/mailcore/src/store/queue.rs: the retries of scheduled sends, the notices of those that
-- gave up, and when the next one wants a flush.
pub mod Backoff
pub mod Waiting
pub mod Notices
pub mod Writes
use Prim.Native.String.{◌++◌ as append}
use text.Mathlib.Text.{◌==◌ as str_eq}
use mailclient.Base.{
  ℕ, ◌+◌, ◌-◌, ◌*◌, String, Bool, true, false, not, ◌&&◌, Option, none, some, List, [], ◌∷◌, ◌==◌,
  ltb, leb, if◌then◌else◌, map, length,
}
use mailclient.Base.Lists.{get_elem?}
use mailclient.Base.Order.{sort, dedup, minimum}
use mailclient.Base.Results.{Result, ok, err}
use mailclient.Base.Table.{update_where, select_where, order_by}
use mailclient.Errors.{StoreError}
use mailclient.Outbox.Row.{
  QueueStatus, failed, QueuedSend, Outbox, stamp, seconds, has_bytes, reached, null_or_reached,
  is_some, has_id,
}
use mailclient.Outbox.Store.{max_send_retries, held, is_failed, get}

abbrev pub scheduled_backoff_secs : List ℕ
scheduled_backoff_secs = (5 * 60) ∷ (15 * 60) ∷ (60 * 60) ∷ (3 * 60 * 60) ∷ []

abbrev pub scheduled_deadline_secs : ℕ
scheduled_deadline_secs = 24 * 60 * 60

pub data ScheduledFailure : Type 0 where
  retry_at : ℕ → ScheduledFailure
  gave_up : ScheduledFailure

-- Later than a day after the time of the send.
abbrev pub past_deadline : Option ℕ → ℕ → Bool
past_deadline none now = false
past_deadline (some at) now = ltb (seconds at + seconds scheduled_deadline_secs) now

-- What the failure of attempt number `attempts` leads to.
pub decide : ℕ → Option ℕ → Bool → ℕ → ScheduledFailure
decide attempts send_at permanent now = elim (get_elem? scheduled_backoff_secs (attempts - 1)) [
  | none ↦ gave_up
  | some secs ↦
      (if not permanent && (not (past_deadline send_at now) && ltb attempts max_send_retries)
        then retry_at (stamp (now + seconds secs))
        else gave_up)
]

abbrev pub retries_after : ℕ → ScheduledFailure → ℕ
retries_after attempts (retry_at at) = attempts
retries_after attempts gave_up = max_send_retries

abbrev pub next_after : ScheduledFailure → Option ℕ
next_after (retry_at at) = some at
next_after gave_up = none

-- What the update of a failed attempt writes.
abbrev pub failed_attempt : ℕ → ScheduledFailure → String → ℕ → QueuedSend → QueuedSend
failed_attempt attempts decision error now r = record r {
  status = failed;
  last_error = some error;
  retries = retries_after attempts decision;
  next_attempt_at = next_after decision;
  failure_noticed = false;
  updated_at = stamp now;
}

unfoldable pub fail_scheduled_attempt :
    ℕ → String → Bool → ℕ → Outbox → Outbox × Result StoreError ScheduledFailure
unfolding decide
fail_scheduled_attempt id error permanent now o = elim (get id o) [
  | err e ↦ (o, err e)
  | ok row ↦
      (let attempts = row.retries + 1 in
        let decision = decide attempts row.send_at permanent now in
        (
          record o {
            rows = update_where (has_id id) (failed_attempt attempts decision error now) o.rows;
          },
          ok decision,
        ))
]

abbrev pub due_attempt : ℕ → ℕ → QueuedSend → Bool
due_attempt account_id due r =
    (r.account_id == account_id)
    && (is_some r.send_at
        && (held r.status
            && (has_bytes r.raw_mime
                && (ltb r.retries max_send_retries
                    && (reached r.send_at due && null_or_reached r.next_attempt_at due)))))

-- An error ends the loop; what was written before it stays.
fail_each : List ℕ → String → ℕ → Outbox → Outbox × Result StoreError (Unit {0})
unfolding fail_scheduled_attempt
fail_each [] error now o = (o, ok tt)
fail_each (id ∷ ids) error now o =
    let (o', result) = fail_scheduled_attempt id error false now o in
    let rest = fail_each ids error now o' in elim result [ err e ↦ (o', err e) | ok _ ↦ rest ]

unfoldable pub fail_due_scheduled : ℕ → String → ℕ → Outbox → Outbox × Result StoreError ℕ
unfolding fail_each
fail_due_scheduled account_id error now o =
    let ids =
      map (λ (r : QueuedSend). r.id) (select_where (due_attempt account_id (stamp now)) o.rows) in
    let (o', result) = fail_each ids error now o in
    elim result [ err e ↦ (o', err e) | ok _ ↦ (o', ok (length ids)) ]

pub record FailedSend : Type 0 where
  pub queue_id : ℕ
  pub account_id : ℕ
  pub subject : String
  pub error : String
  pub line : String

unfoldable pub line_for : String → String → String
line_for subject error =
    if str_eq error ""
    then append "Scheduled mail not sent: " subject
    else append "Scheduled mail not sent: " (append subject (append " — " error))

-- The `where` clause of `take_failure_notices`.
abbrev pub unreported : QueuedSend → Bool
unreported r =
    is_failed r.status
    && (is_some r.send_at && (leb max_send_retries r.retries && not r.failure_noticed))

or_else : {A : Type 0} → Option A → A → A
or_else none d = d
or_else (some a) d = a

-- `subject_from_mime` reads headers by the mail_parser package.
module _ (subject_from_mime : List ℕ → Option String) where
  subject_of : Option (List ℕ) → String
  unfolding or_else
  subject_of none = "(no subject)"
  subject_of (some raw) = or_else (subject_from_mime raw) "(no subject)"

  notice : QueuedSend → FailedSend
  unfolding subject_of line_for
  notice r = record {
    queue_id = r.id;
    account_id = r.account_id;
    subject = subject_of r.raw_mime;
    error = or_else r.last_error "";
    line = line_for (subject_of r.raw_mime) (or_else r.last_error "");
  }

  -- Each row read is marked by its id, then reported.
  mark_each : List QueuedSend → Outbox → Outbox
  mark_each [] o = o
  mark_each (r ∷ rs) o = mark_each rs (record o {
    rows = update_where (has_id r.id) (λ x. record x { failure_noticed = true }) o.rows;
  })

  unfoldable pub take_failure_notices : Outbox → Outbox × List FailedSend
  unfolding mark_each notice
  take_failure_notices o =
      let rows = order_by (λ r. r.updated_at) (select_where unreported o.rows) in
      (mark_each rows o, map notice rows)

-- The `where` clause of `waiting_scheduled`.
abbrev pub waits : QueuedSend → Bool
waits r =
    is_some r.send_at && (held r.status && (has_bytes r.raw_mime && ltb r.retries max_send_retries))

-- `next_attempt_at` if it lies behind `send_at`; a stored time always reads back.
abbrev pub attempt_time : Option ℕ → Option ℕ → ℕ
attempt_time none next = 0
attempt_time (some at) none = at
attempt_time (some at) (some t) = if leb at t then t else at

-- `(account, next attempt)`, the attempt as a stored time.
unfoldable pub waiting_scheduled : Outbox → List (ℕ × ℕ)
waiting_scheduled o =
    map (λ (r : QueuedSend). (r.account_id, attempt_time r.send_at r.next_attempt_at))
      (select_where waits o.rows)

unfoldable pub next_due : Outbox → Option ℕ
unfolding waiting_scheduled
next_due o = minimum (map (λ (w : ℕ × ℕ). w.1) (waiting_scheduled o))

unfoldable pub due_scheduled_account_ids : ℕ → Outbox → List ℕ
unfolding waiting_scheduled
due_scheduled_account_ids now o = dedup (
    sort (
      map (λ (w : ℕ × ℕ). w.0)
        (select_where (λ (w : ℕ × ℕ). leb (seconds w.1) now) (waiting_scheduled o))))
