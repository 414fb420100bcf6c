-- ===== src/Background/Schedule/Due.antt =====
-- When a polled account is checked.
use mathlib.Core.List.{Sublistᴰ}
use mailclient.Base.{
  ℕ, ◌+◌, ◌*◌, ◌≡◌, refl, ◌≤◌, Bool, true, not, ◌&&◌, Option, none, some, List, [], ◌∷◌, map, ltb,
  leb, arith, All, All-mono, Bool-cases, Option-cases, inl, inr,
}
use mailclient.Base.Order.{minimum}
use mailclient.Base.Membership.{AtMost, minimum-AtMost}
use mailclient.Base.Table.{select_where}
use mailclient.Background.QuietHours.{TimeZone}
use mailclient.Background.Schedule.{
  Account, Scheduled, timestamp, is_quiet, scheduled, active, or_zero, due_now, due_accounts,
}

-- An account that is polled now.
abbrev pub polls : TimeZone → ℕ → Account → Bool
polls tz now a =
    ltb 0 a.sync_interval && (not (is_quiet tz now a.quiet_hours) && not a.push_enabled)

-- An account that was not checked for so many seconds, or never.
abbrev pub rested : ℕ → ℕ → Option ℕ → Bool
rested now seconds none = true
rested now seconds (some last) = leb (last + seconds) (timestamp now)

-- The test of `due_now` on the account.
abbrev due_in : ℕ → ℕ → Account → Bool
due_in tick now a = elim a.checked_at [
  | none ↦ true
  | some last ↦ leb (last + a.sync_interval * 60) (timestamp now + tick * 30)
]

-- A stricter test selects a sublist.
select_where-mono :
    (p q : Account → Bool) (accounts : List Account)
    → All (λ a. p a ≡ true → q a ≡ true) accounts
    → Sublistᴰ (select_where p accounts) (select_where q accounts)
unfolding select_where
select_where-mono p q [] h = Sublistᴰ.slnil
select_where-mono p q (a ∷ accounts) (first, others) =
    let rest = select_where-mono p q accounts others in
    elim (Bool-cases (p a)) [
      | inl chosen ↦ rw (chosen, first chosen) (Sublistᴰ.cons-cons refl rest)
      | inr left ↦ rw (left) (elim (Bool-cases (q a)) [
        | inl more ↦ rw (more) (Sublistᴰ.cons rest)
        | inr none_of ↦ rw (none_of) rest
      ])
    ]

module _ (tz : TimeZone) (now : ℕ) where
  abbrev polled : List Account → List Scheduled
  polled accounts = select_where (λ (s : Scheduled). not s.push) (active tz now accounts)

  minutes-polled :
      (accounts : List Account)
      → map (λ (s : Scheduled). s.minutes) (polled accounts)
        ≡ map (λ (a : Account). a.sync_interval) (select_where (polls tz now) accounts)
  unfolding active scheduled select_where
  minutes-polled [] = refl
  minutes-polled (a ∷ accounts) = ground (arith, minutes-polled accounts)

  accounts-polled :
      (tick : ℕ) (accounts : List Account)
      → map (λ (s : Scheduled). s.account) (select_where (due_now tick now) (polled accounts))
        ≡ select_where (λ a. polls tz now a && due_in tick now a) accounts
  unfolding active scheduled select_where due_now
  accounts-polled tick [] = refl
  accounts-polled tick (a ∷ accounts) = ground (arith, accounts-polled tick accounts)

  -- The tick is no longer than the interval of an account that is polled.
  ticks :
      (tick : ℕ) (accounts : List Account)
      → All
          (λ n. tick ≤ n)
          (map (λ (a : Account). a.sync_interval) (select_where (polls tz now) accounts))
      → All (λ (a : Account). polls tz now a ≡ true → tick ≤ a.sync_interval) accounts
  unfolding select_where
  ticks tick [] h = tt
  ticks tick (a ∷ accounts) h = elim (Bool-cases (polls tz now a)) [
    | inl polled ↦
        (let (first, others) = rw (polled) at h in (λ _. first, ticks tick accounts others))
    | inr left ↦ (λ p. cc, ticks tick accounts (rw (left) at h))
  ]

  tick-AtMost : (o : Option ℕ) → AtMost (or_zero o) o
  tick-AtMost none = tt
  tick-AtMost (some n) = omega arith

  due_full :
      (tick : ℕ) (a : Account)
      → (polls tz now a && rested now (a.sync_interval * 60) a.checked_at) ≡ true
      → (polls tz now a && due_in tick now a) ≡ true
  due_full tick a h = elim (Option-cases a.checked_at) [
    | inl e ↦ rw (e) (ground (arith, h))
    | inr (last, e) ↦ ground (arith, h, e)
  ]

  due_half :
      (tick : ℕ) (a : Account)
      → (polls tz now a ≡ true → tick ≤ a.sync_interval)
      → (polls tz now a && due_in tick now a) ≡ true
      → (polls tz now a && rested now (a.sync_interval * 30) a.checked_at) ≡ true
  due_half tick a short h = elim (Option-cases a.checked_at) [
    | inl e ↦ ground (arith, h, e)
    | inr (last, e) ↦ ground (arith, h, e, short)
  ]

  -- An account that is polled now is due if it was not checked for its interval, or never, and
  -- it is due only if it was not checked for half of its interval; no other account is due. The
  -- order of the accounts is kept.
  pub due_accounts-Between :
      (accounts : List Account)
      → Sublistᴰ
          (select_where
            (λ a. polls tz now a && rested now (a.sync_interval * 60) a.checked_at)
            accounts)
          (due_accounts tz now accounts)
        × Sublistᴰ (due_accounts tz now accounts) (
            select_where
              (λ a. polls tz now a && rested now (a.sync_interval * 30) a.checked_at)
              accounts)
  unfolding due_accounts
  due_accounts-Between accounts =
      let intervals =
        map (λ (a : Account). a.sync_interval) (select_where (polls tz now) accounts) in
      let tick = or_zero (minimum intervals) in
      let shorter =
        ticks tick accounts (minimum-AtMost tick intervals (tick-AtMost (minimum intervals))) in
      rw (minutes-polled accounts, accounts-polled tick accounts)
        (
          select_where-mono _ _ accounts
              (All-mono _ _ accounts (λ a short. due_full tick a) shorter),
          select_where-mono _ _ accounts
              (All-mono _ _ accounts (λ a short. due_half tick a short) shorter),
        )
