-- ===== src/Outbox/Store/Final.antt =====
-- A delivered row: `mark_sent` is final, and its bytes are gone.
use mailclient.Base.{
  Bool, All, ℕ, suc, ◌≤◌, ◌≡◌, refl, false, none, List, [], ◌∷◌, arith, Bool-cases, Option-cases,
  ◌⊎◌, inl, inr,
}
use mailclient.Base.Results.{ok}
use mailclient.Base.Table.{find_where}
use mailclient.Base.Table.Laws.{find-update_where, find_where-test, count_where-none}
use mailclient.Outbox.Row.{sent, QueuedSend, Outbox, has_id, stamp}
use mailclient.Outbox.Keys.{
  IsKeyed, Change, same, next, updates, Change-IsKeyed, Change-absent, Change-next_id,
  find-delete_hit,
}
use mailclient.Outbox.Store.{claim, prune_sent, mark_sent, past_retention}
use mailclient.Outbox.Store.Steps.{
  Op, claims, prunes, step, run, Holds, Absent, step-Holds, step-Change, claim-wins,
}
use mailclient.Outbox.Schedule.Writes.{Write, does, fails_due, writes, Elsewhere, removed, rewrites}
use mailclient.Outbox.Schedule.Writes.Stays.{Stays, writes-Stays, writes-Change}

-- The row that `mark_sent` leaves.
abbrev pub delivered : ℕ → QueuedSend → QueuedSend
delivered now r = record r {
  status = sent;
  last_error = none;
  raw_mime = none;
  updated_at = stamp now;
}

-- A delivered row is touched by nothing but the pruning of old rows, which deletes it.
pub step-delivered :
    (i t now : ℕ) (op : Op) (o : Outbox) (r : QueuedSend)
    → IsKeyed o
    → suc i ≤ o.next_id
    → Holds i (delivered t r) o ⊎ Absent i o
    → Holds i (delivered t r) (step now op o) ⊎ Absent i (step now op o)
unfolding step prune_sent
step-delivered i t now op o r k h (inr gone) = inr (Change-absent i (step-Change now op o) h gone)
step-delivered i t now (claims id) o r k h (inl e) =
    inl (step-Holds i now (claims id) o (delivered t r) (ground arith) e)
step-delivered i t now prunes o r k h (inl e) =
    elim (Bool-cases (past_retention now (delivered t r))) [
      | inl old ↦ inr (find-delete_hit i (past_retention now) o.rows 0 o.next_id k e old)
      | inr recent ↦ inl (step-Holds i now prunes o (delivered t r) recent e)
    ]
step-delivered i t now op o r k h (inl e) =
    inl (step-Holds i now op o (delivered t r) (ground arith) e)

pub run-delivered :
    (i t : ℕ) (ops : List (ℕ × Op)) (o : Outbox) (r : QueuedSend)
    → IsKeyed o
    → suc i ≤ o.next_id
    → Holds i (delivered t r) o ⊎ Absent i o
    → Holds i (delivered t r) (run ops o) ⊎ Absent i (run ops o)
unfolding run
run-delivered i t [] o r k h e = e
run-delivered i t ((now, op) ∷ ops) o r k h e =
    let change = step-Change now op o in
    run-delivered i t ops (step now op o) r (Change-IsKeyed change k)
      (omega (arith, Change-next_id change)) (step-delivered i t now op o r k h e)

pub mark_sent-Change : (i now : ℕ) (o : Outbox) → Change o (mark_sent i now o).0
unfolding mark_sent
mark_sent-Change i now o = next same (updates (has_id i) (delivered now) (λ r. refl))

pub mark_sent-Holds :
    (i now : ℕ) (o : Outbox) {r : QueuedSend}
    → Holds i r o
    → Holds i (delivered now r) (mark_sent i now o).0
unfolding mark_sent
mark_sent-Holds i now o {r} e =
    rw (find-update_where (has_id i) (has_id i) (delivered now) o.rows (λ x. refl), e)
      (ground (arith, find_where-test (has_id i) o.rows e))

-- `mark_sent` reports success for a row that is there.
mark_sent-found :
    (i now : ℕ) (o : Outbox) → (mark_sent i now o).1 ≡ ok tt → (r : QueuedSend) × Holds i r o
unfolding mark_sent
mark_sent-found i now o h = elim (Option-cases (find_where (has_id i) o.rows)) [
  | inl e ↦ absurd (ground (arith, count_where-none (has_id i) o.rows e))
  | inr (r, e) ↦ (r, e)
]

-- No claim wins a row that is delivered or gone.
pub claim-delivered :
    (i t now : ℕ) (o : Outbox) (r : QueuedSend)
    → IsKeyed o
    → Holds i (delivered t r) o ⊎ Absent i o
    → (claim i now o).1 ≡ false
claim-delivered i t now o r k (inl e) = rw (claim-wins i now o k, e)
claim-delivered i t now o r k (inr e) = rw (claim-wins i now o k, e)

-- A delivered row is rewritten by no write but those that name it.
delivered_spared :
    (i t now : ℕ) (w : Write) (r : QueuedSend)
    → r.id ≡ i
    → Elsewhere i w
    → rewrites now w (delivered t r) ≡ false
delivered_spared i t now (does (claims id)) r this h = ground arith
delivered_spared i t now (does op) r this h = ground arith
delivered_spared i t now (fails_due account error) r this h = ground arith
delivered_spared i t now w r this h = ground arith

each_spared :
    (i t : ℕ) (ws : List (ℕ × Write)) (r : QueuedSend)
    → r.id ≡ i
    → All (λ p. Elsewhere i p.1) ws
    → All (λ p. rewrites p.0 p.1 (delivered t r) ≡ false) ws
each_spared i t [] r this h = tt
each_spared i t ((now, w) ∷ ws) r this (h, hs) =
    (delivered_spared i t now w r this h, each_spared i t ws r this hs)

kept_or_gone :
    (i t : ℕ) (gone : Bool) (o : Outbox) (r : QueuedSend)
    → Stays i (delivered t r) gone o
    → Holds i (delivered t r) o ⊎ Absent i o
kept_or_gone i t gone o r (inl e) = inl e
kept_or_gone i t gone o r (inr (hit, e)) = inr e

-- After a successful mark_sent the row stays sent and without bytes, or is gone because one of
-- the writes below deleted it, however much later, and no claim of it wins. This is over any
-- sequence of enqueues, claims, requeueing, promotion, pruning, rescheduling, send now, the
-- failure of all due rows, dismissals, deletions of rows and accounts, and writes addressed by
-- id to other rows (mark_sent, mark_failed, fail_scheduled_attempt, update_raw_mime,
-- discard_mime, fail_and_discard, the mark of a reported failure). A write addressed by id to
-- this very row is not among them, unless it deletes it.
pub sent_is_final :
    (i now later : ℕ) (o : Outbox) (ws : List (ℕ × Write))
    → IsKeyed o
    → (mark_sent i now o).1 ≡ ok tt
    → All (λ p. Elsewhere i p.1) ws
    → ((r : QueuedSend) × Holds i r o
        × Stays i
            (delivered now r)
            (removed (delivered now r) ws)
            (writes ws (mark_sent i now o).0))
      × ((claim i later (writes ws (mark_sent i now o).0)).1 ≡ false)
sent_is_final i now later o ws k done elsewhere =
    let (r, e) = mark_sent-found i now o done in
    let o' = (mark_sent i now o).0 in
    let k' = Change-IsKeyed (mark_sent-Change i now o) k in
    let this : r.id ≡ i = ground (arith, find_where-test (has_id i) o.rows e) in
    let kept =
      writes-Stays i ws o' (delivered now r) k' (mark_sent-Holds i now o e)
        (each_spared i now ws r this elsewhere) in
    (
      (r, e, kept),
      claim-delivered i now later (writes ws o') r (Change-IsKeyed (writes-Change ws o') k')
          (kept_or_gone i now (removed (delivered now r) ws) (writes ws o') r kept),
    )
