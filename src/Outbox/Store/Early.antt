-- ===== src/Outbox/Store/Early.antt =====
-- A scheduled send before its time.
use mailclient.Base.{
  ℕ, suc, ◌≤◌, ◌≡◌, refl, Bool, false, some, List, [], ◌∷◌, arith, All, ◌==◌, inl, inr,
}
use mailclient.Base.Table.Laws.{find_where-test}
use mailclient.Outbox.Row.{scheduled, QueuedSend, Outbox, has_id, stamp}
use mailclient.Outbox.Keys.{IsKeyed, Change-IsKeyed}
use mailclient.Outbox.Store.{claim}
use mailclient.Outbox.Store.Steps.{promotes, reschedules, sends_now, Holds, claim-wins}
use mailclient.Outbox.Schedule.Writes.{Write, does, fails_due, writes, Elsewhere, removed, rewrites}
use mailclient.Outbox.Schedule.Writes.Stays.{Stays, writes-Stays, writes-Change}

-- The write is no order of the user to move row `i` or to send it now, and is not addressed by
-- id to row `i`, unless to delete it.
abbrev pub Leaves : ℕ → Write → Type 0
Leaves i (does (reschedules account id at)) = (id == i) ≡ false
Leaves i (does (sends_now account id)) = (id == i) ≡ false
Leaves i (does op) = Unit
Leaves i w = Elsewhere i w

spared_before :
    (i now t : ℕ) (w : Write) (r : QueuedSend)
    → r.id ≡ i
    → r.status ≡ scheduled
    → r.send_at ≡ some t
    → suc (stamp now) ≤ t
    → Leaves i w
    → rewrites now w r ≡ false
spared_before i now t (does (promotes account)) r this s at early l = rw (s, at) (ground arith)
spared_before i now t (does op) r this s at early l = ground arith
spared_before i now t (fails_due account error) r this s at early l = rw (s, at) (ground arith)
spared_before i now t w r this s at early l = ground arith

each_spared_before :
    (i t : ℕ) (ws : List (ℕ × Write)) (r : QueuedSend)
    → r.id ≡ i
    → r.status ≡ scheduled
    → r.send_at ≡ some t
    → All (λ p. suc (stamp p.0) ≤ t) ws
    → All (λ p. Leaves i p.1) ws
    → All (λ p. rewrites p.0 p.1 r ≡ false) ws
each_spared_before i t [] r this s at early l = tt
each_spared_before i t ((now, w) ∷ ws) r this s at (early, later) (l, ls) =
    (spared_before i now t w r this s at early l, each_spared_before i t ws r this s at later ls)

waiting_loses :
    (i later : ℕ) (gone : Bool) (o : Outbox) (r : QueuedSend)
    → IsKeyed o
    → r.status ≡ scheduled
    → Stays i r gone o
    → (claim i later o).1 ≡ false
waiting_loses i later gone o r k s (inl e) = rw (claim-wins i later o k, e) (ground arith)
waiting_loses i later gone o r k s (inr (hit, e)) = rw (claim-wins i later o k, e) refl

-- Nothing goes out early: before the second of its time, a scheduled row stays as it is, or is
-- gone because one of the writes below deleted it, and no claim of it wins. This is over any
-- sequence of enqueues, claims, requeueing, promotion, pruning, rescheduling, send now, the
-- failure of all due rows, dismissals, deletions of rows and accounts, and writes addressed by
-- id to other rows (mark_sent, mark_failed, fail_scheduled_attempt, update_raw_mime,
-- discard_mime, fail_and_discard, the mark of a reported failure). A reschedule or send now of
-- this row, and a write addressed to it by id, are not among them, unless it deletes the row.
pub scheduled_waits :
    (i t later : ℕ) (ws : List (ℕ × Write)) (o : Outbox) (r : QueuedSend)
    → IsKeyed o
    → Holds i r o
    → r.status ≡ scheduled
    → r.send_at ≡ some t
    → All (λ p. suc (stamp p.0) ≤ t) ws
    → All (λ p. Leaves i p.1) ws
    → Stays i r (removed r ws) (writes ws o) × ((claim i later (writes ws o)).1 ≡ false)
scheduled_waits i t later ws o r k e s at early leaves =
    let this : r.id ≡ i = ground (arith, find_where-test (has_id i) o.rows e) in
    let kept = writes-Stays i ws o r k e (each_spared_before i t ws r this s at early leaves) in
    (
      kept,
      waiting_loses i later (removed r ws) (writes ws o) r (Change-IsKeyed (writes-Change ws o) k) s
          kept,
    )
