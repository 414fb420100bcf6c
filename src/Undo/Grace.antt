-- ===== src/Undo/Grace.antt =====
-- crates/mailcore/src/undo/grace.rs: the timer that pushes an account's moves once their grace
-- period is over. Instants are nanoseconds; the heap is the list of its entries in the order in
-- which it gives them, earliest first. Waiting on the condition variable is not modelled: a round
-- of the loop is `fire`, run at some instant.
pub mod Coalesce
use mailclient.Base.{
  ℕ, ◌+◌, ◌*◌, Bool, true, false, not, ◌&&◌, ◌||◌, Option, none, some, List, [], ◌∷◌, ◌==◌, ltb,
  leb, if◌then◌else◌,
}
use mailclient.Outbox.Row.{seconds, stamp}

abbrev pub undo_grace_secs : ℕ
undo_grace_secs = 8

abbrev pub coalesce : ℕ
coalesce = seconds 2

-- `(deadline, account)`
abbrev pub Deadline : Type 0
Deadline = ℕ × ℕ

abbrev pub Deadlines : Type 0
Deadlines = List Deadline

abbrev pub earlier : Deadline → Deadline → Bool
earlier (at, account) (later, other) = ltb at later || ((at == later) && leb account other)

-- `BinaryHeap::push`
unfoldable pub push : Deadline → Deadlines → Deadlines
push d [] = d ∷ []
push d (e ∷ queue) = let rest = push d queue in if earlier d e then d ∷ e ∷ queue else e ∷ rest

-- `queue.extend(rest)`
unfoldable pub extend : Deadlines → List Deadline → Deadlines
unfolding push
extend queue [] = queue
extend queue (d ∷ rest) = extend (push d queue) rest

-- The delay of `push_after_grace`: a second more than the grace period.
abbrev pub delay : ℕ
delay = seconds (undo_grace_secs + 1)

unfoldable pub schedule : ℕ → ℕ → Deadlines → Deadlines
schedule now account_id queue = push (now + delay, account_id) queue

-- The inner loop: the entries that it pops and puts back, and those that it does not pop.
unfoldable pub ride_along : ℕ → ℕ → Deadlines → List Deadline × Deadlines
ride_along at account [] = ([], [])
ride_along at account ((later, other) ∷ queue) =
    let next = ride_along at account queue in
    if (other == account) && leb later (at + coalesce)
    then next
    else if ltb (at + coalesce) later
    then ((later, other) ∷ [], queue)
    else ((later, other) ∷ next.0, next.1)

-- A round of the loop at `now`: the account to push, if one is due, and the queue.
unfoldable pub fire : ℕ → Deadlines → Option ℕ × Deadlines
unfolding ride_along extend
fire now [] = (none, [])
fire now ((at, account) ∷ queue) =
    let (rest, left) = ride_along at account queue in
    if ltb now at then (none, (at, account) ∷ queue) else (some account, extend left rest)

-- `due_at` of a move that was queued at `now` (`queue_into` of crates/mailcore/src/undo.rs).
abbrev pub due_at : ℕ → ℕ
due_at now = stamp (now + seconds undo_grace_secs)
