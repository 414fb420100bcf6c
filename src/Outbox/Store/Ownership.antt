-- ===== src/Outbox/Store/Ownership.antt =====
-- Who may submit a row. While a row is `sending`, one submitter owns it.
use mailclient.Base.{ℕ, ◌+◌, ◌≤◌, ◌≡◌, refl, Bool, false, true, List, [], ◌∷◌, arith, All, inl, inr}
use mailclient.Base.Table.Laws.{find_where-test}
use mailclient.Outbox.Keys.{IsKeyed, Change-IsKeyed}
use mailclient.Outbox.Row.{sending, QueuedSend, Outbox, has_id, stamp}
use mailclient.Outbox.Store.{claim}
use mailclient.Outbox.Store.Steps.{
  claims, Holds, claimed, claim-loses, claim-IsKeyed, claim-Holds, claim-wins,
}
use mailclient.Outbox.Schedule.Writes.{Write, does, fails_due, writes, Elsewhere, removed, rewrites}
use mailclient.Outbox.Schedule.Writes.Stays.{Stays, writes-Stays, writes-Change}

-- A `sending` row is rewritten for 30 minutes by no write but those that name it.
spared_while_fresh :
    (i now : ℕ) (w : Write) (r : QueuedSend)
    → r.id ≡ i
    → r.status ≡ sending
    → stamp now ≤ r.updated_at + 1800
    → Elsewhere i w
    → rewrites now w r ≡ false
spared_while_fresh i now (does (claims id)) r this s f h = ground arith
spared_while_fresh i now (does op) r this s f h = ground arith
spared_while_fresh i now (fails_due account error) r this s f h = ground arith
spared_while_fresh i now w r this s f h = ground arith

each_spared_while_fresh :
    (i : ℕ) (ws : List (ℕ × Write)) (r : QueuedSend)
    → r.id ≡ i
    → r.status ≡ sending
    → All (λ p. stamp p.0 ≤ r.updated_at + 1800) ws
    → All (λ p. Elsewhere i p.1) ws
    → All (λ p. rewrites p.0 p.1 r ≡ false) ws
each_spared_while_fresh i [] r this s f h = tt
each_spared_while_fresh i ((now, w) ∷ ws) r this s (f, fs) (h, hs) =
    (spared_while_fresh i now w r this s f h, each_spared_while_fresh i ws r this s fs hs)

owned_loses :
    (i later : ℕ) (gone : Bool) (o : Outbox) (r : QueuedSend)
    → IsKeyed o
    → r.status ≡ sending
    → Stays i r gone o
    → (claim i later o).1 ≡ false
owned_loses i later gone o r k s (inl e) = claim-loses i later o r k e s
owned_loses i later gone o r k s (inr (hit, e)) = rw (claim-wins i later o k, e) refl

-- Once a submitter has won a row, the row stays sending with the same content for 30 minutes,
-- or is gone because one of the writes below deleted it, and no further claim of it succeeds.
-- This is over any sequence of enqueues, claims, requeueing, promotion, pruning, rescheduling,
-- send now, the failure of all due rows, dismissals, deletions of rows and accounts, and writes
-- addressed by id to other rows (mark_sent, mark_failed, fail_scheduled_attempt,
-- update_raw_mime, discard_mime, fail_and_discard, the mark of a reported failure). A write
-- addressed by id to this very row is not among them, unless it deletes it: that is the
-- submitter's own.
pub claim_exclusive :
    (i now later : ℕ) (o : Outbox) (ws : List (ℕ × Write))
    → IsKeyed o
    → (claim i now o).1 ≡ true
    → All (λ p. stamp p.0 ≤ stamp now + 1800) ws
    → All (λ p. Elsewhere i p.1) ws
    → ((r : QueuedSend) × Holds i r o
        × Stays i (claimed now r) (removed (claimed now r) ws) (writes ws (claim i now o).0))
      × ((claim i later (writes ws (claim i now o).0)).1 ≡ false)
claim_exclusive i now later o ws k won fresh elsewhere =
    let (r, e, free, e') = claim-Holds i now o k won in
    let o' = (claim i now o).0 in
    let k' = claim-IsKeyed i now o k in
    let this : r.id ≡ i = ground (arith, find_where-test (has_id i) o.rows e) in
    let kept =
      writes-Stays i ws o' (claimed now r) k' e'
        (each_spared_while_fresh i ws (claimed now r) this refl fresh elsewhere) in
    (
      (r, e, kept),
      owned_loses i later (removed (claimed now r) ws) (writes ws o') (claimed now r)
          (Change-IsKeyed (writes-Change ws o') k') refl kept,
    )
