-- ===== src/Outbox/Store/Outcomes.antt =====
-- What `reschedule`, `send_now`, and the crash recovery come to, for every state of the row.
use mailclient.Base.{
  ℕ, ◌≡◌, refl, ap, Bool, false, Option, none, some, List, ◌==◌, ◌&&◌, if◌then◌else◌, Option-cases,
  inl, inr, arith,
}
use mailclient.Base.Results.{Result, ok, err, ◌>>=◌, Result-cases}
use mailclient.Base.Table.{find_where, update_where, count_where}
use mailclient.Base.Table.Laws.{update_where-none, find-update_where, find_where-test}
use mailclient.Errors.{StoreError, not_found, invalid_input, queue_entry, text}
use mailclient.Outbox.Row.{queued, scheduled, QueuedSend, Outbox, has_id, has_bytes, stamp}
use mailclient.Outbox.Keys.{IsKeyed, matches, count_key}
use mailclient.Outbox.Store.{
  reschedule, send_now, movable, held, unchanged_reason, normalize_future_send_at,
}

-- Why a row cannot be moved, or `none` if it can.
abbrev pub refusal : ℕ → ℕ → Option QueuedSend → Option StoreError
refusal account_id id none = some (not_found (queue_entry id))
refusal account_id id (some r) =
    if r.account_id == account_id
    then (if held r.status
        then (if has_bytes r.raw_mime
            then none
            else some
                (invalid_input (text "this entry has no message data left; send it again by hand")))
        else some (invalid_input (text "this entry is already being sent")))
    else some (not_found (text "outbox entry"))

abbrev pub or_refused : {A : Type 0} → A → Option StoreError → Result StoreError A
or_refused a none = ok a
or_refused a (some e) = err e

-- The rest of the clause of `movable` behind the id.
abbrev passes : ℕ → QueuedSend → Bool
passes account_id r = (r.account_id == account_id) && (held r.status && has_bytes r.raw_mime)

count-movable :
    (account id : ℕ) (o : Outbox)
    → IsKeyed o
    → count_where (movable account id) o.rows
      ≡ matches (passes account) (find_where (has_id id) o.rows)
count-movable account id o k = count_key id (passes account) o.rows 0 o.next_id k

-- What a moving statement reports.
abbrev report : {A : Type 0} → ℕ → ℕ → (QueuedSend → QueuedSend) → A → Outbox → Result StoreError A
report account id set a o =
    if count_where (movable account id) o.rows == 0
    then err (
        unchanged_reason account id
          (record o { rows = update_where (movable account id) set o.rows }))
    else ok a

report-refusal :
    {A : Type 0} (account id : ℕ) (set : QueuedSend → QueuedSend) (a : A) (o : Outbox)
    → IsKeyed o
    → ((r : QueuedSend) → (set r).id ≡ r.id)
    → report account id set a o ≡ or_refused a (refusal account id (find_where (has_id id) o.rows))
unfolding unchanged_reason
report-refusal account id set a o k keep = elim (Option-cases (find_where (has_id id) o.rows)) [
  | inl e ↦
      ground
        (arith, count-movable account id o k, update_where-none (movable account id) set o.rows)
  | inr (r, e) ↦
      ground
        (arith, count-movable account id o k, update_where-none (movable account id) set o.rows)
]

report-err :
    {A : Type 0} (account id : ℕ) (set : QueuedSend → QueuedSend) (a : A) (o : Outbox)
    {e : StoreError}
    → report account id set a o ≡ err e
    → record o { rows = update_where (movable account id) set o.rows } ≡ o
report-err account id set a o h =
    ap (λ (rows : List QueuedSend). record o { rows = rows })
      (update_where-none (movable account id) set o.rows (ground arith))

report-ok :
    {A : Type 0} (account id : ℕ) (set : QueuedSend → QueuedSend) (a : A) (o : Outbox) {b : A}
    → IsKeyed o
    → ((r : QueuedSend) → (set r).id ≡ r.id)
    → report account id set a o ≡ ok b
    → (r : QueuedSend) × (find_where (has_id id) o.rows ≡ some r)
      × (find_where (has_id id) (update_where (movable account id) set o.rows) ≡ some (set r))
report-ok account id set a o k keep h = elim (Option-cases (find_where (has_id id) o.rows)) [
  | inl e ↦ absurd (ground (arith, count-movable account id o k))
  | inr (r, e) ↦ (
    r,
    e,
    rw
        (
          find-update_where (has_id id) (movable account id) set o.rows
              (λ x. ap (λ n. n == id) (keep x)),
          e,
        )
        (ground (arith, count-movable account id o k, find_where-test (has_id id) o.rows e)),
  )
]

report-value :
    {A : Type 0} (account id : ℕ) (set : QueuedSend → QueuedSend) (a : A) (o : Outbox) {b : A}
    → report account id set a o ≡ ok b
    → a ≡ b
report-value account id set a o h = ground arith

-- The row that `reschedule` leaves, and the one that `send_now` leaves.
abbrev pub waiting_until : ℕ → ℕ → QueuedSend → QueuedSend
waiting_until at now r = record r {
  status = scheduled;
  send_at = some at;
  retries = 0;
  last_error = none;
  next_attempt_at = none;
  failure_noticed = false;
  updated_at = stamp now;
}

abbrev pub queued_now : ℕ → QueuedSend → QueuedSend
queued_now now r = record r {
  status = queued;
  send_at = some (stamp now);
  retries = 0;
  last_error = none;
  next_attempt_at = none;
  failure_noticed = false;
  updated_at = stamp now;
}

-- The table after a moving operation, by its result: as it was, or with the row rewritten.
abbrev pub After :
    {A : Type 0}
    → ℕ
    → (A → QueuedSend → QueuedSend)
    → Outbox
    → Outbox
    → Result StoreError A
    → Type 0
After id set o o' (err e) = o' ≡ o
After id set o o' (ok a) =
    (r : QueuedSend) × (find_where (has_id id) o.rows ≡ some r)
    × (find_where (has_id id) o'.rows ≡ some (set a r))

report-After :
    {A : Type 0} (account id : ℕ) (set : A → QueuedSend → QueuedSend) (a : A) (o : Outbox)
    → IsKeyed o
    → ((r : QueuedSend) → (set a r).id ≡ r.id)
    → After id set o
        (record o { rows = update_where (movable account id) (set a) o.rows })
        (report account id (set a) a o)
report-After account id set a o k keep = elim (Result-cases (report account id (set a) a o)) [
  | inl (b, h) ↦
      rw h
        (rw (← report-value account id (set a) a o h) (report-ok account id (set a) a o k keep h))
  | inr (e, h) ↦ rw h (report-err account id (set a) a o h)
]

-- A rescheduling is refused for its time first, then for the first thing wrong with the row: it is
-- missing, of another account, being sent or sent, or without bytes. A refusal leaves the table as
-- it was; a success leaves the row waiting for the new time with its failures forgotten.
pub reschedule_outcome :
    (account id : ℕ) (at : Option ℕ) (now : ℕ) (o : Outbox)
    → IsKeyed o
    → ((reschedule account id at now o).1 ≡ (
        normalize_future_send_at at now >>= λ t.
        or_refused t (refusal account id (find_where (has_id id) o.rows))))
      × After id
          (λ t. waiting_until t now)
          o
          (reschedule account id at now o).0
          (reschedule account id at now o).1
unfolding reschedule
reschedule_outcome account id at now o k = elim (Result-cases (normalize_future_send_at at now)) [
  | inl (t, good) ↦
      rw (good, reschedule)
        (
          report-refusal account id (waiting_until t now) t o k (λ r. refl),
          report-After account id (λ t. waiting_until t now) t o k (λ r. refl),
        )
  | inr (why, bad) ↦ rw (bad, reschedule) (refl, refl)
]

-- Send now is refused for the first thing wrong with the row: it is missing, of another
-- account, being sent or sent, or without bytes. A refusal leaves the table as it was; a
-- success leaves the row queued and due this second, with its failures forgotten and the rest
-- of it as it was.
pub send_now_outcome :
    (account id now : ℕ) (o : Outbox)
    → IsKeyed o
    → ((send_now account id now o).1
        ≡ or_refused tt (refusal account id (find_where (has_id id) o.rows)))
      × After id (λ _. queued_now now) o (send_now account id now o).0 (send_now account id now o).1
unfolding send_now
send_now_outcome account id now o k = (
  report-refusal account id (queued_now now) tt o k (λ r. refl),
  report-After account id (λ _. queued_now now) tt o k (λ r. refl),
)
