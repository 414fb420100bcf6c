-- ===== src/Background/Tests.antt =====
-- Tests of the background plan, and its theorems at inputs where their hypotheses hold.
use mathlib.Core.List.{Sublistᴰ}
use mailclient.Base.{
  ℕ, ◌+◌, ◌-◌, ◌*◌, ◌≡◌, refl, Bool, true, false, not, ◌&&◌, Option, none, some, List, [], ◌∷◌,
  arith, map,
}
use mailclient.Base.Text.{codes}
use mailclient.Base.Table.{select_where}
use mailclient.Base.Order.{minimum, filter}
use mailclient.Background.QuietHours.{hour, day, QuietHours, contains_at, resolve, next_change}
use mailclient.Background.QuietHours.Changes.{fixed_offset, next_change-contains_at}
use mailclient.Background.Times.{minute, parse_time, normalize_time, time_parts}
use mailclient.Background.Times.RoundTrip.{normalize_time-stored}
use mailclient.Background.Schedule.{
  Account, work_manager, timestamp, scheduled, plan_at, due_accounts,
}
use mailclient.Background.Schedule.Replan.{plan_at-stable}
use mailclient.Background.Schedule.Due.{polls, rested, due_accounts-Between}

abbrev late : QuietHours
late = record { start = 22 * hour + 30 * minute; end = 6 * hour }

-- Two hours east of UTC; the hour is one of local time on a day of 1970.
abbrev east : ℕ
east = 2 * hour

abbrev local : ℕ → ℕ
local h = 10 * day + (h - 2) * hour

the_window_wraps : contains_at (fixed_offset east 0) late (local 23) ≡ true
unfolding contains_at
the_window_wraps = refl

the_change_is_tomorrow : next_change (fixed_offset east 0) late (local 23) ≡ some (local 6 + day)
unfolding next_change filter minimum resolve
the_change_is_tomorrow = refl

-- Five hours west of UTC.
abbrev west : ℕ
west = 5 * hour

abbrev there : ℕ → ℕ
there h = 10 * day + (h + 5) * hour

the_change_there : next_change (fixed_offset 0 west) late (there 23) ≡ some (there 6 + day)
unfolding next_change filter minimum resolve
the_change_there = refl

next_change-contains_at_example :
    (contains_at (fixed_offset 0 west) late (there 6 + day - 1)
      ≡ contains_at (fixed_offset 0 west) late (there 23))
    × (contains_at (fixed_offset 0 west) late (there 6 + day)
        ≡ not (contains_at (fixed_offset 0 west) late (there 23)))
    × (next_change (fixed_offset 0 west) late (there 6 + day - 1) ≡ some (there 6 + day))
next_change-contains_at_example =
    next_change-contains_at 0 west late (there 23) (there 6 + day) (there 6 + day - 1)
      (omega arith, omega arith) (omega arith) the_change_there (omega arith) (omega arith)

reads_times : parse_time (codes " 7:05 ") ≡ some (7 * hour + 5 * minute)
unfolding parse_time
reads_times = refl

-- A plus sign is read as part of a number.
reads_a_plus : normalize_time (codes "+7:+5") ≡ some (codes "07:05")
unfolding normalize_time
reads_a_plus = refl

refuses : parse_time (codes "007:00") ≡ none
unfolding parse_time
refuses = refl

normalize_time-stored_example :
    (normalize_time (codes " 7:05 ") ≡ some (codes "07:05"))
    × (normalize_time (codes "07:05") ≡ some (codes "07:05"))
    × (time_parts (codes " 7:05 ") ≡ some (7, 5))
    × (time_parts (codes "07:05") ≡ some (7, 5))
normalize_time-stored_example =
    normalize_time-stored (32 ∷ []) (32 ∷ []) true 7 5 (refl, tt) (refl, tt) (omega arith)
      (omega arith)

abbrev account : ℕ → ℕ → Bool → Option QuietHours → Option ℕ → Account
account id minutes push quiet checked = record {
  id = id;
  sync_interval = minutes;
  push_enabled = push;
  quiet_hours = quiet;
  checked_at = checked;
}

abbrev accounts : List Account
accounts =
    account 1 15 true (some late) none
    ∷ account 2 15 false none (some (timestamp (local 12)))
    ∷ account 3 60 false (some late) none
    ∷ account 4 0 false none none
    ∷ []

plan_at-stable_example :
    plan_at (fixed_offset 0 west) work_manager accounts (there 13)
    ≡ plan_at (fixed_offset 0 west) work_manager accounts (there 12)
unfolding plan_at next_change filter minimum resolve
plan_at-stable_example =
    plan_at-stable 0 west (there 12) (there 13) work_manager accounts
      ((omega arith, omega arith), (tt, ((omega arith, omega arith), (tt, tt)))) (omega arith)
      (omega arith) (omega arith)

due_accounts-Between_example :
    Sublistᴰ
      (select_where
        (λ (a : Account).
          polls (fixed_offset east 0) (local 13) a
          && rested (local 13) (a.sync_interval * 60) a.checked_at)
        accounts)
      (due_accounts (fixed_offset east 0) (local 13) accounts)
    × Sublistᴰ (due_accounts (fixed_offset east 0) (local 13) accounts) (
        select_where
          (λ (a : Account).
            polls (fixed_offset east 0) (local 13) a
            && rested (local 13) (a.sync_interval * 30) a.checked_at)
          accounts)
due_accounts-Between_example = due_accounts-Between (fixed_offset east 0) (local 13) accounts

due :
    map (λ (a : Account). a.id) (due_accounts (fixed_offset east 0) (local 13) accounts)
    ≡ 2 ∷ 3 ∷ []
unfolding due_accounts scheduled contains_at select_where minimum next_change filter resolve
due = refl
