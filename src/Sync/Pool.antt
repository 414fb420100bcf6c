-- ===== src/Sync/Pool.antt =====
-- crates/mailcore/src/sync/pool.rs: one idle IMAP session per account, and the leases on sessions.
-- A session is its connection; whether it is healthy or connected, and what a connect gives, is the
-- network's answer and an argument of the operations. A `HashMap` is a function from its keys.
pub mod Reuse
use mailclient.Base.{
  ℕ, zero, suc, ◌+◌, ◌%◌, ◌^◌, Bool, true, false, Option, none, some, List, [], ◌∷◌, ◌==◌,
  if◌then◌else◌, length, replicate, String,
}
use mailclient.Base.Results.{Result, ok, err, ◌>>=◌}

-- One TCP connection. `opened` is the number of evictions of its account that had happened when
-- the checkout that made the connection began; the code does not keep it.
pub record Connection : Type 0 where
  pub opened : ℕ

abbrev pub insert : {A : Type 0} → ℕ → A → (ℕ → A) → ℕ → A
insert key value map k = if k == key then value else map k

-- `generation` is `fn generation`: 0 for a key that is not in the map.
pub record Pool : Type 0 where
  pub idle : ℕ → Option Connection
  pub generation : ℕ → ℕ

abbrev pub default_pool : Pool
default_pool = record { idle = λ a. none; generation = λ a. 0 }

pub record SessionLease : Type 0 where
  pub account_id : ℕ
  pub generation : ℕ
  pub session : Option Connection

-- The first block of `checkout_session`, under the mutex: the pooled session, if there is one, and
-- the generation.
unfoldable pub take_session : ℕ → Pool → Pool × (Option Connection × ℕ)
take_session id pool =
    (record pool { idle = insert id none pool.idle }, (pool.idle id, pool.generation id))

-- The rest of `checkout_session`: `connected` is the answer of `connect_fresh`.
unfoldable pub open_session :
    ℕ → Option Connection → ℕ → Bool → Result String Connection → Result String SessionLease
open_session id existing generation healthy connected =
    let fresh : Result String SessionLease = connected >>= λ s.
    ok (record { account_id = id; generation = generation; session = some s }) in
    elim existing [
      | none ↦ fresh
      | some s ↦
          (if healthy
            then ok (record { account_id = id; generation = generation; session = some s })
            else fresh)
    ]

unfoldable pub checkin : SessionLease → Bool → Pool → Pool
checkin lease is_connected pool = elim lease.session [
  | none ↦ pool
  | some s ↦
      (if pool.generation lease.account_id == lease.generation
        then (if is_connected
            then record pool { idle = insert lease.account_id (some s) pool.idle }
            else pool)
        else pool)
]

-- The counter is a `u64`.
unfoldable pub evict_session : ℕ → Pool → Pool
evict_session account_id pool = record {
  idle = insert account_id none pool.idle;
  generation = insert account_id ((pool.generation account_id + 1) % 2 ^ 64) pool.generation;
}

unfoldable pub drop_all_sessions : Pool → Pool
drop_all_sessions pool = record pool { idle = λ a. none }

-- A checkout between the two halves of `checkout_session`.
pub record Connecting : Type 0 where
  pub account : ℕ
  pub existing : Option Connection
  pub generation : ℕ
  pub began : ℕ

-- The pool, the checkouts and the leases under way, and how often each account was evicted.
pub record Jobs : Type 0 where
  pub pool : Pool
  pub connecting : List Connecting
  pub leases : List SessionLease
  pub evictions : ℕ → ℕ

abbrev pub idle_jobs : Jobs
idle_jobs = record { pool = default_pool; connecting = []; leases = []; evictions = λ a. 0 }

pub data Event : Type 0 where
  begins : ℕ → Event
  -- The checkout at a position ends, with the network's answers.
  connects : ℕ → Bool → Bool → Event
  -- The lease at a position is checked in, connected or not, or dropped.
  returns : ℕ → Bool → Event
  drops : ℕ → Event
  evicts : ℕ → Event
  shuts_down : Event

abbrev pub push : {A : Type 0} → A → Option (A × List A) → Option (A × List A)
push x none = none
push x (some (y, ys)) = some (y, x ∷ ys)

-- The element at a position, and the others.
unfoldable pub pick : {A : Type 0} → ℕ → List A → Option (A × List A)
pick n [] = none
pick zero (x ∷ xs) = some (x, xs)
pick (suc n) (x ∷ xs) = push x (pick n xs)

abbrev answer : Bool → ℕ → Result String Connection
answer true began = ok (record { opened = began })
answer false began = err "unreachable"

-- A lease that could be had joins the leases.
abbrev pub join : Result String SessionLease → List SessionLease → List SessionLease
join (ok lease) leases = lease ∷ leases
join (err e) leases = leases

-- What a job does with the checkout or the lease that was picked for it.
unfoldable pub finish_checkout : Bool → Bool → Jobs → Option (Connecting × List Connecting) → Jobs
unfolding open_session
finish_checkout healthy reachable j none = j
finish_checkout healthy reachable j (some (c, rest)) = record j {
  connecting = rest;
  leases =
      join (open_session c.account c.existing c.generation healthy (answer reachable c.began))
        j.leases;
}

unfoldable pub return_lease : Bool → Jobs → Option (SessionLease × List SessionLease) → Jobs
unfolding checkin
return_lease is_connected j none = j
return_lease is_connected j (some (lease, rest)) = record j {
  pool = checkin lease is_connected j.pool;
  leases = rest;
}

unfoldable pub drop_lease : Jobs → Option (SessionLease × List SessionLease) → Jobs
drop_lease j none = j
drop_lease j (some (lease, rest)) = record j { leases = rest }

unfoldable pub step : Event → Jobs → Jobs
unfolding take_session finish_checkout return_lease drop_lease evict_session drop_all_sessions pick
step (begins a) j =
    let (pool, (existing, generation)) = take_session a j.pool in
    record j {
      pool = pool;
      connecting =
          record {
            account = a;
            existing = existing;
            generation = generation;
            began = j.evictions a;
          }
          ∷ j.connecting;
    }
step (connects n healthy reachable) j = finish_checkout healthy reachable j (pick n j.connecting)
step (returns n is_connected) j = return_lease is_connected j (pick n j.leases)
step (drops n) j = drop_lease j (pick n j.leases)
step (evicts a) j = record j {
  pool = evict_session a j.pool;
  evictions = insert a (suc (j.evictions a)) j.evictions;
}
step shuts_down j = record j { pool = drop_all_sessions j.pool }

unfoldable pub run : List Event → Jobs → Jobs
unfolding step
run [] j = j
run (e ∷ events) j = run events (step e j)
