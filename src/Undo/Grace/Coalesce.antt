-- ===== src/Undo/Grace/Coalesce.antt =====
-- What a round of the timer takes off the queue.
use mailclient.Base.{
  ℕ, suc, ◌+◌, ◌≤◌, ◌≡◌, refl, Bool, true, false, not, ◌&&◌, some, List, [], ◌∷◌, ◌==◌, leb, arith,
  All,
}
use mailclient.Base.Table.{count_where}
use mailclient.Outbox.Row.{stamp, seconds}
use mailclient.Undo.Grace.{
  Deadline, Deadlines, push, extend, ride_along, fire, coalesce, delay, due_at,
}

-- The heap gives its entries earliest first.
abbrev pub Ordered : Deadlines → Type 0
Ordered [] = Unit
Ordered (d ∷ queue) = All (λ e. d.0 ≤ e.0) queue × Ordered queue

-- An entry that is fired with the entry of `account` at `at`.
abbrev pub rides : ℕ → ℕ → Deadline → Bool
rides at account (later, other) = (other == account) && leb later (at + seconds 2)

abbrev stays : ℕ → ℕ → (Deadline → Bool) → Deadline → Bool
stays at account test d = test d && not (rides at account d)

abbrev one : Bool → ℕ
one true = 1
one false = 0

count-push :
    (test : Deadline → Bool) (d : Deadline) (queue : Deadlines)
    → count_where test (push d queue) ≡ one (test d) + count_where test queue
unfolding push count_where
count-push test d [] = ground arith
count-push test d (e ∷ queue) = ground (arith, count-push test d queue)

count-extend :
    (test : Deadline → Bool) (queue : Deadlines) (rest : List Deadline)
    → count_where test (extend queue rest) ≡ count_where test rest + count_where test queue
unfolding extend count_where
count-extend test queue [] = omega arith
count-extend test queue (d ∷ rest) =
    ground (arith, count-extend test (push d queue) rest, count-push test d queue)

-- Behind an entry that is too late, all are.
count-late :
    (at account : ℕ) (test : Deadline → Bool) (queue : Deadlines)
    → All (λ e. suc (at + coalesce) ≤ e.0) queue
    → count_where (stays at account test) queue ≡ count_where test queue
unfolding count_where
count-late at account test [] h = refl
count-late at account test (e ∷ queue) (h, hs) = ground (arith, count-late at account test queue hs)

All-late :
    (at later : ℕ) (queue : Deadlines)
    → suc at ≤ later
    → All (λ (e : Deadline). later ≤ e.0) queue
    → All (λ (e : Deadline). suc at ≤ e.0) queue
All-late at later [] h hs = tt
All-late at later (e ∷ queue) h (he, hs) = (omega arith, All-late at later queue h hs)

count-ride :
    (at account : ℕ) (test : Deadline → Bool) (queue : Deadlines)
    → Ordered queue
    → count_where test (ride_along at account queue).0
        + count_where test (ride_along at account queue).1
      ≡ count_where (stays at account test) queue
unfolding ride_along count_where
count-ride at account test [] o = omega arith
count-ride at account test ((later, other) ∷ queue) (h, o) = ground (
  arith,
  count-ride at account test queue o,
  count-late at account test queue,
  All-late (at + coalesce) later queue,
)

-- A round of the timer whose earliest deadline has come pushes that entry's account, and takes
-- off the queue this entry and the account's entries of the next two seconds. Any other entry
-- is still there, and as often as before.
pub fire_takes :
    (now at account : ℕ) (queue : Deadlines) (test : Deadline → Bool)
    → Ordered ((at, account) ∷ queue)
    → at ≤ now
    → ((fire now ((at, account) ∷ queue)).0 ≡ some account)
      × (count_where test (fire now ((at, account) ∷ queue)).1
          ≡ count_where (λ d. test d && not (rides at account d)) queue)
unfolding fire
fire_takes now at account queue test (h, o) due =
    let (rest, left) = ride_along at account queue in
    (ground arith, ground (arith, count-extend test left rest, count-ride at account test queue o))

-- A move that is queued within a second after another one of its account is pushed with it, at the
-- end of that one's delay or later: the timer drops its deadline, and its own grace period is over.
pub coalesced_due :
    (first second now account : ℕ)
    → first ≤ second
    → second ≤ first + seconds 1
    → first + delay ≤ now
    → (rides (first + delay) account (second + delay, account) ≡ true) × (due_at second ≤ stamp now)
coalesced_due first second now account h h' due = (ground arith, omega arith)
