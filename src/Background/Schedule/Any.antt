-- ===== src/Background/Schedule/Any.antt =====
-- Whether anything is checked in the background.
use mailclient.Base.{
  ℕ, ◌≡◌, refl, ◌∙◌, ◌≤◌, Bool, false, not, ◌||◌, List, [], ◌∷◌, map, ltb, arith, All, Option-cases,
  Bool-cases, inl, inr, length, is_empty,
}
use mailclient.Base.Order.{minimum}
use mailclient.Base.Table.{select_where}
use mailclient.Background.QuietHours.{TimeZone}
use mailclient.Background.Schedule.{
  Account, Scheduled, Scheduler, any, any_push, or_zero, scheduled, plan_at,
}

abbrev pub any_checks : List Account → Bool
any_checks [] = false
any_checks (a ∷ accounts) = ltb 0 a.sync_interval || any_checks accounts

abbrev minutes_of : List Scheduled → List ℕ
minutes_of all = map (λ (s : Scheduled). s.minutes) all

abbrev Positive : List ℕ → Type 0
Positive minutes = All (λ n. 1 ≤ n) minutes

minimum-Positive :
    (minutes : List ℕ)
    → Positive minutes
    → ltb 0 (or_zero (minimum minutes)) ≡ not (is_empty minutes)
unfolding minimum
minimum-Positive [] h = refl
minimum-Positive (n ∷ minutes) (first, others) =
    ground (arith, minimum-Positive minutes others, Option-cases (minimum minutes))

scheduled-Positive :
    (tz : TimeZone) (now : ℕ) (accounts : List Account)
    → All (λ (s : Scheduled). 1 ≤ s.minutes) (scheduled tz now accounts)
unfolding scheduled
scheduled-Positive tz now [] = tt
scheduled-Positive tz now (a ∷ accounts) = elim (Bool-cases (ltb 0 a.sync_interval)) [
  | inl checks ↦ rw (checks) (ground (arith, checks), scheduled-Positive tz now accounts)
  | inr manual ↦ rw (manual) (scheduled-Positive tz now accounts)
]

select-Positive :
    (test : Scheduled → Bool) (all : List Scheduled)
    → All (λ (s : Scheduled). 1 ≤ s.minutes) all
    → All (λ (s : Scheduled). 1 ≤ s.minutes) (select_where test all)
unfolding select_where
select-Positive test [] h = tt
select-Positive test (s ∷ all) (first, others) = elim (Bool-cases (test s)) [
  | inl in_it ↦ rw (in_it) (first, select-Positive test all others)
  | inr out_of ↦ rw (out_of) (select-Positive test all others)
]

minutes-Positive :
    (all : List Scheduled) → All (λ (s : Scheduled). 1 ≤ s.minutes) all → Positive (minutes_of all)
minutes-Positive [] h = tt
minutes-Positive (s ∷ all) (first, others) = (first, minutes-Positive all others)

abbrev awake : List Scheduled → List Scheduled
awake all = select_where (λ (s : Scheduled). not s.quiet) all

abbrev polled : List Scheduled → List Scheduled
polled all = select_where (λ (s : Scheduled). not s.push) (awake all)

-- A scheduled account is pushed, polled or quiet.
one_of :
    (all : List Scheduled)
    → (any_push (awake all)
        || (not (is_empty (minutes_of (polled all)))
            || ltb 0 (length (select_where (λ (s : Scheduled). s.quiet) all))))
      ≡ not (is_empty all)
unfolding select_where
one_of [] = refl
one_of (s ∷ all) = ground (arith, one_of all)

scheduled-checks :
    (tz : TimeZone) (now : ℕ) (accounts : List Account)
    → not (is_empty (scheduled tz now accounts)) ≡ any_checks accounts
unfolding scheduled
scheduled-checks tz now [] = refl
scheduled-checks tz now (a ∷ accounts) = ground (arith, scheduled-checks tz now accounts)

-- A plan says that something checks in the background exactly when some account has an
-- interval, quiet or not, whatever the time, the zone and the other settings.
pub any-plan_at :
    (tz : TimeZone) (scheduler : Scheduler) (accounts : List Account) (now : ℕ)
    → any (plan_at tz scheduler accounts now) ≡ any_checks accounts
unfolding any plan_at
any-plan_at tz scheduler accounts now =
    let all = scheduled tz now accounts in
    let positive = minutes-Positive (polled all) (
      select-Positive _ (awake all) (select-Positive _ all (scheduled-Positive tz now accounts))) in
    rw (minimum-Positive (minutes_of (polled all)) positive)
      (one_of all ∙ scheduled-checks tz now accounts)
