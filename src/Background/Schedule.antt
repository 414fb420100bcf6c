-- ===== src/Background/Schedule.antt =====
-- crates/mailcore/src/sync/background/schedule.rs: which accounts the background serves, and when.
-- The settings of an account are its columns here, as account_settings.rs resolves them.

pub mod Replan
pub mod Due
pub mod Any
use mailclient.Base.{
  ℕ, ◌+◌, ◌*◌, ◌/◌, Bool, true, false, not, ◌&&◌, ◌||◌, Option, none, some, List, [], ◌∷◌, map, ltb,
  leb, ◌==◌, if◌then◌else◌, length,
}
use mailclient.Base.Order.{minimum}
use mailclient.Base.Table.{select_where}
use mailclient.Background.QuietHours.{TimeZone, QuietHours, contains_at, next_change}

pub record Account : Type 0 where
  pub id : ℕ
  pub sync_interval : ℕ
  pub push_enabled : Bool
  pub quiet_hours : Option QuietHours
  -- `bg_checked_at_{id}`, in seconds
  pub checked_at : Option ℕ

pub record Scheduled : Type 0 where
  pub account : Account
  pub minutes : ℕ
  pub push : Bool
  pub quiet : Bool
  pub change_at : Option ℕ

pub data Scheduler : Type 0 where
  work_manager alarm : Scheduler

pub record BackgroundPlan : Type 0 where
  pub push : Bool
  pub poll_minutes : ℕ
  pub poll_scheduler : Scheduler
  pub quiet_accounts : ℕ
  pub replan_at : Option ℕ

unfoldable pub any : BackgroundPlan → Bool
any plan = plan.push || (ltb 0 plan.poll_minutes || ltb 0 plan.quiet_accounts)

-- `DateTime::timestamp`
abbrev pub timestamp : ℕ → ℕ
timestamp now = now / 1000000000

abbrev pub is_quiet : TimeZone → ℕ → Option QuietHours → Bool
is_quiet tz now none = false
is_quiet tz now (some q) = contains_at tz q now

abbrev pub changes : TimeZone → ℕ → Option QuietHours → Option ℕ
changes tz now none = none
changes tz now (some q) = next_change tz q now

unfoldable pub scheduled : TimeZone → ℕ → List Account → List Scheduled
scheduled tz now [] = []
scheduled tz now (a ∷ accounts) =
    let rest = scheduled tz now accounts in
    if ltb 0 a.sync_interval
    then record {
      account = a;
      minutes = a.sync_interval;
      push = a.push_enabled;
      quiet = is_quiet tz now a.quiet_hours;
      change_at = changes tz now a.quiet_hours;
    }
      ∷ rest
    else rest

unfoldable pub active : TimeZone → ℕ → List Account → List Scheduled
active tz now accounts = select_where (λ (s : Scheduled). not s.quiet) (scheduled tz now accounts)

-- `filter_map` with a field, and `any`.
abbrev pub change_times : List Scheduled → List ℕ
change_times [] = []
change_times (s ∷ all) = elim s.change_at [
  | none ↦ change_times all
  | some at ↦ at ∷ change_times all
]

abbrev pub any_push : List Scheduled → Bool
any_push [] = false
any_push (s ∷ all) = s.push || any_push all

abbrev pub or_zero : Option ℕ → ℕ
or_zero none = 0
or_zero (some n) = n

abbrev pub poll_minutes : List Scheduled → ℕ
poll_minutes all = or_zero (
    minimum (map (λ (s : Scheduled). s.minutes) (select_where (λ (s : Scheduled). not s.push) all)))

unfoldable pub plan_at : TimeZone → Scheduler → List Account → ℕ → BackgroundPlan
unfolding scheduled
plan_at tz scheduler accounts now =
    let all = scheduled tz now accounts in
    let awake = select_where (λ (s : Scheduled). not s.quiet) all in
    record {
      push = any_push awake;
      poll_minutes = poll_minutes awake;
      poll_scheduler = scheduler;
      quiet_accounts = length (select_where (λ (s : Scheduled). s.quiet) all);
      replan_at = elim (minimum (change_times all)) [ none ↦ none | some at ↦ some (timestamp at) ];
    }

unfoldable pub push_account_ids : TimeZone → ℕ → List Account → List ℕ
unfolding active
push_account_ids tz now accounts =
    map (λ (s : Scheduled). s.account.id)
      (select_where (λ (s : Scheduled). s.push) (active tz now accounts))

-- `elapsed >= minutes * 60 - tick * 30`, with both sides moved to a sum: the time since the last
-- check is negative when the clock was set back.
unfoldable pub due_now : ℕ → ℕ → Scheduled → Bool
due_now tick now s = elim s.account.checked_at [
  | none ↦ true
  | some last ↦ leb (last + s.minutes * 60) (timestamp now + tick * 30)
]

unfoldable pub due_accounts : TimeZone → ℕ → List Account → List Account
unfolding active due_now
due_accounts tz now accounts =
    let polled = select_where (λ (s : Scheduled). not s.push) (active tz now accounts) in
    let tick = or_zero (minimum (map (λ (s : Scheduled). s.minutes) polled)) in
    map (λ (s : Scheduled). s.account) (select_where (due_now tick now) polled)

-- The check of an account at a tick.
unfoldable pub mark_checked : ℕ → ℕ → List Account → List Account
mark_checked id now [] = []
mark_checked id now (a ∷ accounts) =
    (if a.id == id then record a { checked_at = some (timestamp now) } else a)
    ∷ mark_checked id now accounts
