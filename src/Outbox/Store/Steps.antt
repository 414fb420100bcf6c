-- ===== src/Outbox/Store/Steps.antt =====
-- The operations on the outbox that a process runs without having won a row: the steps that every
-- flush starts with, the enqueues, and the user's reschedule and send now. The writes that are
-- addressed to one row by its id are added in Outbox/Schedule/Writes.antt.
use mailclient.Base.{
  ℕ, ◌≡◌, refl, String, Bool, true, false, Option, none, some, List, [], ◌∷◌, ap, arith,
  Option-cases, inl, inr, ◌==◌, ◌||◌, or_left, or_right,
}
use mailclient.Base.Results.{Result-cases}
use mailclient.Base.Table.{find_where, update_where}
use mailclient.Base.Table.Laws.{find-update_where, find-delete_where, find-append, find_where-test}
use mailclient.Outbox.Keys.{
  IsKeyed, Change, same, updates, deletes, inserts, next, Change-trans, Change-IsKeyed, matches,
  count_key,
}
use mailclient.Outbox.Row.{sending, QueuedSend, Outbox, has_id, stamp}
use mailclient.Outbox.Store.{
  ScheduledMime, claim, requeue_interrupted, promote_due, prune_sent, reschedule, send_now,
  enqueue_mime, enqueue_scheduled_mime, orphaned, bytes_lost, stale_cutoff, due_to_queue, movable,
  past_retention, claimable, unclaimed, normalize_future_send_at,
}

pub data Op : Type 0 where
  claims : ℕ → Op
  requeues promotes : ℕ → Op
  prunes : Op
  reschedules : ℕ → ℕ → Option ℕ → Op
  sends_now : ℕ → ℕ → Op
  enqueues : ℕ → Option ℕ → List ℕ → String → List String → Bool → Op
  schedules : ℕ → ScheduledMime → Op

unfoldable pub step : ℕ → Op → Outbox → Outbox
step now (claims id) o = (claim id now o).0
step now (requeues account) o = (requeue_interrupted account now o).0
step now (promotes account) o = (promote_due account now o).0
step now prunes o = (prune_sent now o).0
step now (reschedules account id at) o = (reschedule account id at now o).0
step now (sends_now account id) o = (send_now account id now o).0
step now (enqueues account message raw from to dsn) o =
    (enqueue_mime account message raw from to dsn now o).0
step now (schedules account mime) o = (enqueue_scheduled_mime account mime now o).0

unfoldable pub run : List (ℕ × Op) → Outbox → Outbox
run [] o = o
run ((now, op) ∷ ops) o = run ops (step now op o)

-- Row `i` of the table is `r`.
abbrev pub Holds : ℕ → QueuedSend → Outbox → Type 0
Holds i r o = find_where (has_id i) o.rows ≡ some r

-- No row `i` is there.
abbrev pub Absent : ℕ → Outbox → Type 0
Absent i o = find_where (has_id i) o.rows ≡ none

pub update-Holds :
    (i : ℕ) (test : QueuedSend → Bool) (set : QueuedSend → QueuedSend) (rows : List QueuedSend)
    {r : QueuedSend}
    → ((x : QueuedSend) → (set x).id ≡ x.id)
    → find_where (has_id i) rows ≡ some r
    → test r ≡ false
    → find_where (has_id i) (update_where test set rows) ≡ some r
update-Holds i test set rows {r} keep e h =
    rw (find-update_where (has_id i) test set rows (λ x. ap (λ n. n == i) (keep x)), e, h)

-- Whether the statement of an operation would touch this row.
abbrev pub touches : ℕ → Op → QueuedSend → Bool
touches now (claims id) r = claimable id r
touches now (requeues account) r =
    orphaned account (stale_cutoff now) r || bytes_lost account (stale_cutoff now) r
touches now (promotes account) r = due_to_queue account (stamp now) r
touches now prunes r = past_retention now r
touches now (reschedules account id at) r = movable account id r
touches now (sends_now account id) r = movable account id r
touches now (enqueues account message raw from to dsn) r = false
touches now (schedules account mime) r = false

schedule-Holds :
    (i now account : ℕ) (mime : ScheduledMime) (o : Outbox) (r : QueuedSend)
    → Holds i r o
    → Holds i r (enqueue_scheduled_mime account mime now o).0
unfolding enqueue_scheduled_mime
schedule-Holds i now account mime o r e =
    elim (Result-cases (normalize_future_send_at mime.send_at now)) [
      | inl (at, good) ↦ rw (good, enqueue_scheduled_mime) (find-append (has_id i) o.rows _ e)
      | inr (why, bad) ↦ rw (bad, enqueue_scheduled_mime) e
    ]

reschedule-Holds :
    (i now account id : ℕ) (at : Option ℕ) (o : Outbox) (r : QueuedSend)
    → movable account id r ≡ false
    → Holds i r o
    → Holds i r (reschedule account id at now o).0
unfolding reschedule
reschedule-Holds i now account id at o r s e =
    elim (Result-cases (normalize_future_send_at at now)) [
      | inl (t, good) ↦
          rw (good, reschedule) (update-Holds i (movable account id) _ o.rows (λ x. refl) e s)
      | inr (why, bad) ↦ rw (bad, reschedule) e
    ]

pub step-Holds :
    (i now : ℕ) (op : Op) (o : Outbox) (r : QueuedSend)
    → touches now op r ≡ false
    → Holds i r o
    → Holds i r (step now op o)
unfolding step claim requeue_interrupted promote_due prune_sent send_now enqueue_mime
step-Holds i now (claims id) o r t e = update-Holds i (claimable id) _ o.rows (λ x. refl) e t
step-Holds i now (requeues account) o r t e =
    update-Holds i (bytes_lost account (stale_cutoff now)) _ _ (λ x. refl)
      (update-Holds i (orphaned account (stale_cutoff now)) _ o.rows (λ x. refl) e (or_left _ _ t))
      (or_right _ _ t)
step-Holds i now (promotes account) o r t e =
    update-Holds i (due_to_queue account (stamp now)) _ o.rows (λ x. refl) e t
step-Holds i now prunes o r t e = find-delete_where (has_id i) (past_retention now) o.rows e t
step-Holds i now (reschedules account id at) o r t e = reschedule-Holds i now account id at o r t e
step-Holds i now (sends_now account id) o r t e =
    update-Holds i (movable account id) _ o.rows (λ x. refl) e t
step-Holds i now (enqueues account message raw from to dsn) o r t e =
    find-append (has_id i) o.rows _ e
step-Holds i now (schedules account mime) o r t e = schedule-Holds i now account mime o r e

-- The row that `claim` leaves when it wins.
abbrev pub claimed : ℕ → QueuedSend → QueuedSend
claimed now r = record r { status = sending; updated_at = stamp now }

reschedule-Change :
    (now account id : ℕ) (at : Option ℕ) (o : Outbox) → Change o (reschedule account id at now o).0
unfolding reschedule
reschedule-Change now account id at o = elim (Result-cases (normalize_future_send_at at now)) [
  | inl (t, good) ↦ rw (good, reschedule) (next same (updates (movable account id) _ (λ r. refl)))
  | inr (why, bad) ↦ rw (bad, reschedule) same
]

schedule-Change :
    (now account : ℕ) (mime : ScheduledMime) (o : Outbox)
    → Change o (enqueue_scheduled_mime account mime now o).0
unfolding enqueue_scheduled_mime
schedule-Change now account mime o =
    elim (Result-cases (normalize_future_send_at mime.send_at now)) [
      | inl (at, good) ↦ rw (good, enqueue_scheduled_mime) (next same (inserts _ refl))
      | inr (why, bad) ↦ rw (bad, enqueue_scheduled_mime) same
    ]

pub step-Change : (now : ℕ) (op : Op) (o : Outbox) → Change o (step now op o)
unfolding step claim requeue_interrupted promote_due prune_sent send_now enqueue_mime
step-Change now (claims id) o = next same (updates (claimable id) _ (λ r. refl))
step-Change now (requeues account) o =
    next (next same (updates (orphaned account (stale_cutoff now)) _ (λ r. refl)))
      (updates (bytes_lost account (stale_cutoff now)) _ (λ r. refl))
step-Change now (promotes account) o =
    next same (updates (due_to_queue account (stamp now)) _ (λ r. refl))
step-Change now prunes o = next same (deletes (past_retention now))
step-Change now (reschedules account id at) o = reschedule-Change now account id at o
step-Change now (sends_now account id) o = next same (updates (movable account id) _ (λ r. refl))
step-Change now (enqueues account message raw from to dsn) o = next same (inserts _ refl)
step-Change now (schedules account mime) o = schedule-Change now account mime o

pub run-Change : (ops : List (ℕ × Op)) (o : Outbox) → Change o (run ops o)
unfolding run
run-Change [] o = same
run-Change ((now, op) ∷ ops) o =
    Change-trans (step-Change now op o) (run-Change ops (step now op o))

-- A claim wins exactly when the row of that id is there and unclaimed.
pub claim-wins :
    (i now : ℕ) (o : Outbox)
    → IsKeyed o
    → (claim i now o).1 ≡ (matches (λ r. unclaimed r.status) (find_where (has_id i) o.rows) == 1)
unfolding claim
claim-wins i now o k = rw (count_key i (λ r. unclaimed r.status) o.rows 0 o.next_id k)

pub claim-loses :
    (i now : ℕ) (o : Outbox) (r : QueuedSend)
    → IsKeyed o
    → Holds i r o
    → r.status ≡ sending
    → (claim i now o).1 ≡ false
claim-loses i now o r k e s = rw (claim-wins i now o k, e) (ground arith)

pub claim-IsKeyed : (i now : ℕ) (o : Outbox) → IsKeyed o → IsKeyed (claim i now o).0
unfolding claim
claim-IsKeyed i now o k =
    Change-IsKeyed {o = o} (next same (updates (claimable i) (claimed now) (λ r. refl))) k

-- A won claim leaves the row `sending`, with the bytes and the rest as they were.
pub claim-Holds :
    (i now : ℕ) (o : Outbox)
    → IsKeyed o
    → (claim i now o).1 ≡ true
    → (r : QueuedSend) × Holds i r o
      × (unclaimed r.status ≡ true)
      × Holds i (claimed now r) (claim i now o).0
unfolding claim
claim-Holds i now o k won = elim (Option-cases (find_where (has_id i) o.rows)) [
  | inl e ↦ ground (arith, claim-wins i now o k)
  | inr (r, e) ↦ (
    r,
    e,
    ground (arith, claim-wins i now o k),
    rw (find-update_where (has_id i) (claimable i) (claimed now) o.rows (λ x. refl), e)
        (ground (arith, claim-wins i now o k, find_where-test (has_id i) o.rows e)),
  )
]
