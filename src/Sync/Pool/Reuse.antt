-- ===== src/Sync/Pool/Reuse.antt =====
-- An evicted session is not used again.
use mailclient.Base.{
  ℕ, zero, suc, ◌+◌, ◌%◌, ◌^◌, ◌≤◌, ◌<◌, ◌≡◌, refl, Bool, true, false, Option, none, some, List, [],
  ◌∷◌, ◌==◌, length, All, arith, Bool-cases, Option-cases, inl, inr, ==_iff, ap, sym, ◌∙◌,
}
use mathlib.Core.Path.{subst}
use mailclient.Sync.Pool.{
  Connection, Pool, SessionLease, Connecting, Jobs, Event, begins, connects, returns, drops, evicts,
  shuts_down, step, run, pick, join, insert, take_session, open_session, checkin, evict_session,
  drop_all_sessions, idle_jobs, answer, push, finish_checkout, return_lease, drop_lease,
}

Picked : {A : Type 0} → (A → Type 0) → Option (A × List A) → Type 0
Picked P none = Unit
Picked P (some (x, rest)) = P x × All P rest

push-Picked :
    {A : Type 0} (P : A → Type 0) (x : A) (o : Option (A × List A))
    → P x
    → Picked P o
    → Picked P (push x o)
unfolding Picked
push-Picked P x none h p = tt
push-Picked P x (some (y, ys)) h (hy, hys) = (hy, (h, hys))

pick-Picked : {A : Type 0} (P : A → Type 0) (n : ℕ) (xs : List A) → All P xs → Picked P (pick n xs)
unfolding pick Picked
pick-Picked P n [] h = tt
pick-Picked P zero (x ∷ xs) (h, hs) = (h, hs)
pick-Picked P (suc n) (x ∷ xs) (h, hs) = push-Picked P x (pick n xs) h (pick-Picked P n xs hs)

-- The connection, if there is one, was opened after so many evictions.
abbrev pub Since : ℕ → Option Connection → Type 0
Since n none = Unit
Since n (some c) = c.opened ≡ n

abbrev Taken : (ℕ → ℕ) → Connecting → Type 0
Taken evictions c =
    (c.began ≤ evictions c.account) × (c.generation ≡ c.began % 2 ^ 64) × Since c.began c.existing

abbrev LeasedSince : ℕ → ℕ → Option Connection → Type 0
LeasedSince evictions generation none = Unit
LeasedSince evictions generation (some s) =
    (s.opened ≤ evictions) × (generation ≡ s.opened % 2 ^ 64)

abbrev Leased : (ℕ → ℕ) → SessionLease → Type 0
Leased evictions l = LeasedSince (evictions l.account_id) l.generation l.session

-- The pool and the jobs agree with the evictions, of which `n` more fit the counter.
record IsSound (n : ℕ) (j : Jobs) : Type 0 where
  counted : (a : ℕ) → j.pool.generation a ≡ j.evictions a % 2 ^ 64
  room : (a : ℕ) → j.evictions a + n < 2 ^ 64
  idle : (a : ℕ) → Since (j.evictions a) (j.pool.idle a)
  connecting : All (Taken j.evictions) j.connecting
  leases : All (Leased j.evictions) j.leases

emptied-Since :
    (m : ℕ → ℕ) (a b : ℕ) (idle : ℕ → Option Connection)
    → Since (m b) (idle b)
    → Since (m b) (insert a none idle b)
emptied-Since m a b idle h = elim (Bool-cases (b == a)) [
  | inl hit ↦ rw (hit) tt
  | inr miss ↦ rw (miss) h
]

open-Leased :
    (evictions : ℕ → ℕ) (a generation began : ℕ) (existing : Option Connection)
    (healthy reachable : Bool) (leases : List SessionLease)
    → began ≤ evictions a
    → generation ≡ began % 2 ^ 64
    → Since began existing
    → All (Leased evictions) leases
    → All
        (Leased evictions)
        (join (open_session a existing generation healthy (answer reachable began)) leases)
unfolding open_session
open-Leased evictions a generation began none healthy true leases h g s hs = ((h, g), hs)
open-Leased evictions a generation began none healthy false leases h g s hs = hs
open-Leased evictions a generation began (some c) true reachable leases h g s hs =
    ((omega arith, rw (s) g), hs)
open-Leased evictions a generation began (some c) false true leases h g s hs = ((h, g), hs)
open-Leased evictions a generation began (some c) false false leases h g s hs = hs

put_back-Since :
    (m : ℕ → ℕ) (a b : ℕ) (c : Connection) (idle : ℕ → Option Connection)
    → c.opened ≡ m a
    → Since (m b) (idle b)
    → Since (m b) (insert a (some c) idle b)
put_back-Since m a b c idle e h = elim (Bool-cases (b == a)) [
  | inl hit ↦ rw (hit) (e ∙ ap m (sym ((==_iff b a).0 hit)))
  | inr miss ↦ rw (miss) h
]

checkin-Since :
    (n : ℕ) (j : Jobs) (l : SessionLease) (connected : Bool) (b : ℕ)
    → IsSound n j
    → Leased j.evictions l
    → Since (j.evictions b) ((checkin l connected j.pool).idle b)
unfolding checkin
checkin-Since n j l connected b sound h =
    let a = l.account_id in
    elim (Option-cases l.session) [
      | inl e ↦ rw (e, checkin) (sound.idle b)
      | inr (c, e) ↦
          (let h' : LeasedSince (j.evictions a) l.generation (some c) =
              subst (LeasedSince (j.evictions a) l.generation) e h in
            elim (Bool-cases (j.pool.generation a == l.generation)) [
              | inr changed ↦ rw (e, changed, checkin) (sound.idle b)
              | inl same ↦ elim (Bool-cases connected) [
                | inr gone ↦ rw (e, same, gone, checkin) (sound.idle b)
                | inl live ↦
                    rw (e, same, live, checkin)
                      (put_back-Since j.evictions a b c j.pool.idle
                        (ground (arith, sound.counted a, sound.room a, h'.0, h'.1)) (sound.idle b))
              ]
            ])
    ]

checkin-generation :
    (l : SessionLease) (connected : Bool) (pool : Pool)
    → (checkin l connected pool).generation ≡ pool.generation
unfolding checkin
checkin-generation l connected pool = elim (Option-cases l.session) [
  | inl e ↦ rw (e, checkin) refl
  | inr (c, e) ↦ elim (Bool-cases (pool.generation l.account_id == l.generation)) [
    | inr changed ↦ rw (e, changed, checkin) refl
    | inl same ↦ elim (Bool-cases connected) [
      | inr gone ↦ rw (e, same, gone, checkin) refl
      | inl live ↦ rw (e, same, live, checkin) refl
    ]
  ]
]

less : (n : ℕ) (j : Jobs) → IsSound (suc n) j → IsSound n j
less n j s = record {
  counted = s.counted;
  room = λ a. omega (arith, s.room a);
  idle = s.idle;
  connecting = s.connecting;
  leases = s.leases;
}

finish-IsSound :
    (n : ℕ) (healthy reachable : Bool) (j : Jobs) (o : Option (Connecting × List Connecting))
    → IsSound (suc n) j
    → Picked (Taken j.evictions) o
    → IsSound n (finish_checkout healthy reachable j o)
unfolding finish_checkout Picked
finish-IsSound n healthy reachable j none s p = less n j s
finish-IsSound n healthy reachable j (some (c, rest)) s ((began, generation, since), others) =
    record {
      counted = s.counted;
      room = λ a. omega (arith, s.room a);
      idle = s.idle;
      connecting = others;
      leases =
          open-Leased j.evictions c.account c.generation c.began c.existing healthy reachable
            j.leases began generation since s.leases;
    }

return-IsSound :
    (n : ℕ) (connected : Bool) (j : Jobs) (o : Option (SessionLease × List SessionLease))
    → IsSound (suc n) j
    → Picked (Leased j.evictions) o
    → IsSound n (return_lease connected j o)
unfolding return_lease Picked checkin
return-IsSound n connected j none s p = less n j s
return-IsSound n connected j (some (lease, rest)) s (h, hs) = record {
  counted = λ a. rw (checkin-generation lease connected j.pool) (s.counted a);
  room = λ a. omega (arith, s.room a);
  idle = λ b. checkin-Since (suc n) j lease connected b s h;
  connecting = s.connecting;
  leases = hs;
}

drop-IsSound :
    (n : ℕ) (j : Jobs) (o : Option (SessionLease × List SessionLease))
    → IsSound (suc n) j
    → Picked (Leased j.evictions) o
    → IsSound n (drop_lease j o)
unfolding drop_lease Picked
drop-IsSound n j none s p = less n j s
drop-IsSound n j (some (lease, rest)) s (h, hs) = record {
  counted = s.counted;
  room = λ a. omega (arith, s.room a);
  idle = s.idle;
  connecting = s.connecting;
  leases = hs;
}

bumped-le : (m : ℕ → ℕ) (a b : ℕ) → m b ≤ insert a (suc (m a)) m b
bumped-le m a b = ground arith

Taken-bumped :
    (m : ℕ → ℕ) (a : ℕ) (xs : List Connecting)
    → All (Taken m) xs
    → All (Taken (insert a (suc (m a)) m)) xs
Taken-bumped m a [] h = tt
Taken-bumped m a (c ∷ xs) ((h, g, s), hs) =
    ((omega (arith, bumped-le m a c.account), g, s), Taken-bumped m a xs hs)

LeasedSince-mono :
    (m m' generation : ℕ) (o : Option Connection)
    → m ≤ m'
    → LeasedSince m generation o
    → LeasedSince m' generation o
LeasedSince-mono m m' generation none le h = tt
LeasedSince-mono m m' generation (some c) le (h, g) = (omega arith, g)

evicted-Since :
    (m : ℕ → ℕ) (a b : ℕ) (idle : ℕ → Option Connection)
    → Since (m b) (idle b)
    → Since (insert a (suc (m a)) m b) (insert a none idle b)
evicted-Since m a b idle h = elim (Bool-cases (b == a)) [
  | inl hit ↦ rw (hit) tt
  | inr miss ↦ rw (miss) h
]

Leased-bumped :
    (m : ℕ → ℕ) (a : ℕ) (xs : List SessionLease)
    → All (Leased m) xs
    → All (Leased (insert a (suc (m a)) m)) xs
Leased-bumped m a [] h = tt
Leased-bumped m a (l ∷ xs) (h, hs) = (
  LeasedSince-mono _ _ l.generation l.session (bumped-le m a l.account_id) h,
  Leased-bumped m a xs hs,
)

evict-IsSound : (n a : ℕ) (j : Jobs) → IsSound (suc n) j → IsSound n (step (evicts a) j)
unfolding step evict_session
evict-IsSound n a j s = record {
  counted = λ b. ground (arith, s.counted a, s.counted b, s.room a);
  room = λ b. ground (arith, s.room a, s.room b);
  idle = λ b. evicted-Since j.evictions a b j.pool.idle (s.idle b);
  connecting = Taken-bumped j.evictions a j.connecting s.connecting;
  leases = Leased-bumped j.evictions a j.leases s.leases;
}

step-IsSound : (n : ℕ) (e : Event) (j : Jobs) → IsSound (suc n) j → IsSound n (step e j)
unfolding step take_session drop_all_sessions
step-IsSound n (begins a) j s = record {
  counted = s.counted;
  room = λ b. omega (arith, s.room b);
  idle = λ b. emptied-Since j.evictions a b j.pool.idle (s.idle b);
  connecting = ((omega arith, s.counted a, s.idle a), s.connecting);
  leases = s.leases;
}
step-IsSound n (connects k healthy reachable) j s =
    finish-IsSound n healthy reachable j (pick k j.connecting) s
      (pick-Picked (Taken j.evictions) k j.connecting s.connecting)
step-IsSound n (returns k connected) j s =
    return-IsSound n connected j (pick k j.leases) s
      (pick-Picked (Leased j.evictions) k j.leases s.leases)
step-IsSound n (drops k) j s =
    drop-IsSound n j (pick k j.leases) s (pick-Picked (Leased j.evictions) k j.leases s.leases)
step-IsSound n (evicts a) j s = evict-IsSound n a j s
step-IsSound n shuts_down j s = record {
  counted = s.counted;
  room = λ b. omega (arith, s.room b);
  idle = λ b. tt;
  connecting = s.connecting;
  leases = s.leases;
}

run-IsSound :
    (events : List Event) (j : Jobs) → IsSound (length events) j → IsSound 0 (run events j)
unfolding run
run-IsSound [] j s = s
run-IsSound (e ∷ events) j s = run-IsSound events (step e j) (step-IsSound (length events) e j s)

-- The session that a checkout of account `a` finds in the pool was opened by a checkout that began
-- after the last eviction of `a`, whatever the jobs of all accounts did before, in any interleaving
-- of fewer than 2^64 steps.
pub evicted_not_reused :
    (events : List Event) (a : ℕ)
    → length events < 2 ^ 64
    → (let j = run events idle_jobs in Since (j.evictions a) (take_session a j.pool).1.0)
unfolding take_session
evicted_not_reused events a bound =
    (run-IsSound events idle_jobs (record {
      counted = λ b. refl;
      room = λ b. omega arith;
      idle = λ b. tt;
      connecting = tt;
      leases = tt;
    })).idle
      a
