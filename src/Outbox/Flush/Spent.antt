-- ===== src/Outbox/Flush/Spent.antt =====
-- A row whose message was accepted, and what the steps of a flush do to the other rows.
use mailclient.Base.{
  ℕ, suc, ◌≤◌, ◌≡◌, refl, Bool, false, none, List, [], ◌∷◌, arith, Bool-cases, Option-cases, ◌⊎◌,
  inl, inr, ◌==◌,
}
use mailclient.Base.Results.{Result-cases}
use mailclient.Base.Table.{find_where, update_where, delete_where}
use mailclient.Base.Table.Laws.{find-delete_where, find_where-test}
use mailclient.Errors.{StoreError}
use mailclient.Outbox.Keys.{
  IsKeyed, Change, same, next, updates, deletes, Change-trans, Change-absent, Change-next_id,
}
use mailclient.Outbox.Row.{QueuedSend, Outbox, has_id, is_some}
use mailclient.Outbox.Schedule.{fail_scheduled_attempt}
use mailclient.Outbox.Store.{get, claim, mark_sent, mark_failed, update_raw_mime, delete}
use mailclient.Outbox.Store.Final.{
  delivered, claim-delivered, run-delivered, mark_sent-Change, mark_sent-Holds,
}
use mailclient.Outbox.Store.Steps.{Op, run, Holds, Absent, claim-wins, run-Change, update-Holds}
use mailclient.Outbox.Flush.{Smtp, record_failure, keep_outgoing, is_permanent}

-- A row that was given out and is sent without bytes, or pruned.
abbrev pub Spent : ℕ → Outbox → Type 0
Spent i o =
    (suc i ≤ o.next_id) × (((t : ℕ) × (r : QueuedSend) × Holds i (delivered t r) o) ⊎ Absent i o)

-- A change of the table that leaves every row but row `j` as it is.
abbrev pub Only : ℕ → Outbox → Outbox → Type 0
Only j o o' =
    Change o o' × ((i : ℕ) (r : QueuedSend) → (i == j) ≡ false → Holds i r o → Holds i r o')

pub Only-same : (j : ℕ) (o : Outbox) → Only j o o
Only-same j o = (same, λ i r d h. h)

pub Only-trans : (j : ℕ) (o o' o'' : Outbox) → Only j o o' → Only j o' o'' → Only j o o''
Only-trans j o o' o'' (c, f) (c', f') = (Change-trans c c', λ i r d h. f' i r d (f i r d h))

pub Spent-Only : (i j : ℕ) (o o' : Outbox) → Only j o o' → (i == j) ≡ false → Spent i o → Spent i o'
Spent-Only i j o o' (c, f) d (h, inl (t, r, e)) =
    (omega (arith, Change-next_id c), inl (t, r, f i (delivered t r) d e))
Spent-Only i j o o' (c, f) d (h, inr gone) =
    (omega (arith, Change-next_id c), inr (Change-absent i c h gone))

-- What other processes do leaves a spent row spent.
pub Spent-run :
    (i : ℕ) (ops : List (ℕ × Op)) (o : Outbox) → IsKeyed o → Spent i o → Spent i (run ops o)
Spent-run i ops o k (h, inl (t, r, e)) = (
  omega (arith, Change-next_id (run-Change ops o)),
  elim (run-delivered i t ops o r k h (inl e)) [ inl e' ↦ inl (t, r, e') | inr gone ↦ inr gone ],
)
Spent-run i ops o k (h, inr gone) = (
  omega (arith, Change-next_id (run-Change ops o)),
  inr (Change-absent i (run-Change ops o) h gone),
)

-- No claim wins a spent row.
pub claim-Spent : (i now : ℕ) (o : Outbox) → IsKeyed o → Spent i o → (claim i now o).1 ≡ false
claim-Spent i now o k (h, inl (t, r, e)) = claim-delivered i t now o r k (inl e)
claim-Spent i now o k (h, inr gone) = rw (claim-wins i now o k, gone)

other_row :
    (i j : ℕ) (o : Outbox) (r : QueuedSend) → (i == j) ≡ false → Holds i r o → has_id j r ≡ false
other_row i j o r d e = ground (arith, find_where-test (has_id i) o.rows e)

update-Only :
    (j : ℕ) (set : QueuedSend → QueuedSend) (o : Outbox)
    → ((x : QueuedSend) → (set x).id ≡ x.id)
    → Only j o (record o { rows = update_where (has_id j) set o.rows })
update-Only j set o keep = (
  next same (updates (has_id j) set keep),
  λ i r d e. update-Holds i (has_id j) set o.rows keep e (other_row i j o r d e),
)

pub delete-Only : (j : ℕ) (o : Outbox) → Only j o (delete j o)
unfolding delete
delete-Only j o = (
  next same (deletes (has_id j)),
  λ i r d e. find-delete_where (has_id i) (has_id j) o.rows e (other_row i j o r d e),
)

pub mark_sent-Only : (j now : ℕ) (o : Outbox) → Only j o (mark_sent j now o).0
unfolding mark_sent
mark_sent-Only j now o = update-Only j (delivered now) o (λ x. refl)

fail_scheduled-Only :
    (j : ℕ) (error : _) (permanent : Bool) (now : ℕ) (o : Outbox)
    → Only j o (fail_scheduled_attempt j error permanent now o).0
unfolding fail_scheduled_attempt
fail_scheduled-Only j error permanent now o = elim (Result-cases (get j o)) [
  | inl (row, e) ↦ rw (e, fail_scheduled_attempt) (update-Only j _ o (λ x. refl))
  | inr (why, e) ↦ rw (e, fail_scheduled_attempt) (Only-same j o)
]

-- After `mark_sent` the row is spent, also when it was gone.
pub mark_sent-Spent : (j now : ℕ) (o : Outbox) → suc j ≤ o.next_id → Spent j (mark_sent j now o).0
mark_sent-Spent j now o h =
    let change = mark_sent-Change j now o in
    (
      omega (arith, Change-next_id change),
      elim (Option-cases (find_where (has_id j) o.rows)) [
        | inl gone ↦ inr (Change-absent j change h gone)
        | inr (r, e) ↦ inl (now, r, mark_sent-Holds j now o e)
      ],
    )

find-delete_self :
    (test : QueuedSend → Bool) (rows : List QueuedSend)
    → find_where test (delete_where test rows) ≡ none
unfolding find_where delete_where
find-delete_self test [] = refl
find-delete_self test (x ∷ rows) = elim (Bool-cases (test x)) [
  | inl h ↦ rw (h) (find-delete_self test rows)
  | inr h ↦ rw (h) (rw (h) (find-delete_self test rows))
]

pub delete-Spent : (j : ℕ) (o : Outbox) → suc j ≤ o.next_id → Spent j (delete j o)
unfolding delete
delete-Spent j o h = (h, inr (find-delete_self (has_id j) o.rows))

module _ {Address Envelope Connect Transport : Type 0}
    (server : Smtp Address Envelope Connect Transport) where
  pub record_failure-Only :
      (j : ℕ) (row : QueuedSend) (e : StoreError) (now : ℕ) (o : Outbox)
      → Only j o (record_failure server j row e now o)
  unfolding record_failure mark_failed
  record_failure-Only j row e now o = elim (Bool-cases (is_some row.send_at)) [
    | inl h ↦ rw (h) (fail_scheduled-Only j (server.to_string e) (is_permanent e) now o)
    | inr h ↦ rw (h) (update-Only j _ o (λ x. refl))
  ]

  pub keep_outgoing-Only :
      (j : ℕ) (row : QueuedSend) (raw : List ℕ) (now : ℕ) (o : Outbox)
      → Only j o (keep_outgoing server j row raw now o)
  unfolding keep_outgoing update_raw_mime
  keep_outgoing-Only j row raw now o = elim (Bool-cases (is_some row.send_at)) [
    | inl h ↦ rw (h) (update-Only j _ o (λ x. refl))
    | inr h ↦ rw (h) (Only-same j o)
  ]
