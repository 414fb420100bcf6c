-- ===== src/Background/Schedule/Replan.antt =====
-- A plan holds until the time at which it says to plan again.
use mailclient.Base.{
  ℕ, suc, ◌≡◌, refl, ◌<◌, ◌≤◌, Option, none, some, List, [], ◌∷◌, ltb, arith, All, Bool-cases,
  Option-cases, inl, inr,
}
use mailclient.Base.Order.{minimum}
use mailclient.Base.Membership.{AtMost, minimum-AtMost}
use mailclient.Background.QuietHours.{QuietHours, next_change}
use mailclient.Background.QuietHours.Changes.{
  fixed_offset, IsWindow, next_change-contains_at, no_change-contains_at,
}
use mailclient.Background.Schedule.{
  Account, Scheduler, timestamp, is_quiet, changes, scheduled, change_times, plan_at,
}

abbrev pub IsQuietHours : Option QuietHours → Type 0
IsQuietHours none = Unit
IsQuietHours (some q) = IsWindow q

abbrev pub Before : ℕ → Option ℕ → Type 0
Before t none = Unit
Before t (some at) = t < at

at_most : (t : ℕ) (o : Option ℕ) → Before t o → AtMost (suc t) o
at_most t none h = tt
at_most t (some at) h = h

timestamp_before : (t at : ℕ) → timestamp t < timestamp at → t < at
timestamp_before t at h = omega arith

split-Before :
    (t : ℕ) (change : Option ℕ) (rest : List ℕ)
    → All (λ x. t < x) (elim change [ none ↦ rest | some at ↦ at ∷ rest ])
    → Before t change × All (λ x. t < x) rest
split-Before t none rest h = (tt, h)
split-Before t (some at) rest (first, others) = (first, others)

module _ (east west now t : ℕ) (since : west ≤ now) (later : now ≤ t) where
  quiet-stable :
      (q : Option QuietHours)
      → IsQuietHours q
      → Before t (changes (fixed_offset east west) now q)
      → (is_quiet (fixed_offset east west) t q ≡ is_quiet (fixed_offset east west) now q)
        × (changes (fixed_offset east west) t q ≡ changes (fixed_offset east west) now q)
  quiet-stable none w h = (refl, refl)
  quiet-stable (some q) w h = elim (Option-cases (next_change (fixed_offset east west) q now)) [
    | inl e ↦
        (let (quiet, next) = no_change-contains_at east west q now t w since later e in
          let (quiet0, next0) = no_change-contains_at east west q now now w since (omega arith) e in
          (rw (quiet, quiet0) refl, rw (e) next))
    | inr (at, e) ↦
        (let (same, flips, next) =
            next_change-contains_at east west q now at t w since e later (rw (e) at h) in
          (same, rw (e) next))
  ]

  scheduled-stable :
      (accounts : List Account)
      → All (λ (a : Account). IsQuietHours a.quiet_hours) accounts
      → All (λ x. t < x) (change_times (scheduled (fixed_offset east west) now accounts))
      → scheduled (fixed_offset east west) t accounts
        ≡ scheduled (fixed_offset east west) now accounts
  unfolding scheduled
  scheduled-stable [] w h = refl
  scheduled-stable (a ∷ accounts) (w, ws) h = elim (Bool-cases (ltb 0 a.sync_interval)) [
    | inl checks ↦
        (let (first, others) =
            split-Before t (changes (fixed_offset east west) now a.quiet_hours) _
              (rw (checks) at h) in
          let (quiet, change) = quiet-stable a.quiet_hours w first in
          rw (checks, quiet, change, scheduled-stable accounts ws others) refl)
    | inr manual ↦ rw (manual) (scheduled-stable accounts ws (rw (manual) at h))
  ]

-- With the quiet hours of the accounts times of a day, in a time zone at a fixed offset east or
-- west of UTC, from a time whose local date is not before 1970: the plan made at any later time
-- before the second at which the plan says to plan again is the same plan.
pub plan_at-stable :
    (east west now t : ℕ) (scheduler : Scheduler) (accounts : List Account)
    → All (λ (a : Account). IsQuietHours a.quiet_hours) accounts
    → west ≤ now
    → now ≤ t
    → Before (timestamp t) (plan_at (fixed_offset east west) scheduler accounts now).replan_at
    → plan_at (fixed_offset east west) scheduler accounts t
      ≡ plan_at (fixed_offset east west) scheduler accounts now
unfolding plan_at
plan_at-stable east west now t scheduler accounts w since later soon =
    let times = change_times (scheduled (fixed_offset east west) now accounts) in
    let ahead : Before t (minimum times) = elim (Option-cases (minimum times)) [
      | inl e ↦ rw (e) tt
      | inr (at, e) ↦ rw (e) (timestamp_before t at (rw (e, Before) at soon))
    ] in
    rw
      (scheduled-stable east west now t since later accounts w
        (minimum-AtMost (suc t) times (at_most t (minimum times) ahead)))
      refl
