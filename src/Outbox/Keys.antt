-- ===== src/Outbox/Keys.antt =====
-- The primary key of `send_queue`: ids ascend along the table and stay below the next one, so a
-- statement that names an id touches one row at most.
use mailclient.Base.{
  ℕ, suc, ◌≤◌, ◌≡◌, refl, Bool, true, ◌&&◌, Option, none, some, List, [], ◌∷◌, ◌++◌, ◌==◌,
  if◌then◌else◌, Bool-cases, inl, inr, arith, ap,
}
use mailclient.Base.Table.{find_where, update_where, count_where, delete_where}
use mailclient.Base.Table.Laws.{find-update_where, find-delete_none}
use mailclient.Outbox.Row.{QueuedSend, Outbox, has_id}

-- The ids of the rows ascend from `low` and stay below `next`.
abbrev pub Ascending : ℕ → List QueuedSend → ℕ → Type 0
Ascending low [] next = low ≤ next
Ascending low (r ∷ rows) next = (low ≤ r.id) × Ascending (suc r.id) rows next

abbrev pub IsKeyed : Outbox → Type 0
IsKeyed o = Ascending 0 o.rows o.next_id

Ascending-mono :
    (rows : List QueuedSend) (low low' next : ℕ)
    → low ≤ low'
    → Ascending low' rows next
    → Ascending low rows next
Ascending-mono [] low low' next h a = omega arith
Ascending-mono (r ∷ rows) low low' next h a = (omega arith, a.1)

Ascending-le : (rows : List QueuedSend) (low next : ℕ) → Ascending low rows next → low ≤ next
Ascending-le [] low next a = a
Ascending-le (r ∷ rows) low next (h, a) = omega (arith, Ascending-le rows (suc r.id) next a)

Ascending-update :
    (test : QueuedSend → Bool) (set : QueuedSend → QueuedSend) (rows : List QueuedSend)
    (low next : ℕ)
    → ((r : QueuedSend) → (set r).id ≡ r.id)
    → Ascending low rows next
    → Ascending low (update_where test set rows) next
unfolding update_where
Ascending-update test set [] low next keep a = a
Ascending-update test set (r ∷ rows) low next keep (h, a) = elim (Bool-cases (test r)) [
  | inl hit ↦ rw (hit, keep r) (h, Ascending-update test set rows (suc r.id) next keep a)
  | inr miss ↦ rw miss (h, Ascending-update test set rows (suc r.id) next keep a)
]

Ascending-delete :
    (test : QueuedSend → Bool) (rows : List QueuedSend) (low next : ℕ)
    → Ascending low rows next
    → Ascending low (delete_where test rows) next
unfolding delete_where
Ascending-delete test [] low next a = a
Ascending-delete test (r ∷ rows) low next (h, a) = elim (Bool-cases (test r)) [
  | inl hit ↦ rw hit (
      Ascending-delete test rows low next (Ascending-mono rows low (suc r.id) next (omega arith) a))
  | inr miss ↦ rw miss (h, Ascending-delete test rows (suc r.id) next a)
]

Ascending-append :
    (rows : List QueuedSend) (r : QueuedSend) (low next : ℕ)
    → r.id ≡ next
    → Ascending low rows next
    → Ascending low (rows ++ r ∷ []) (suc next)
Ascending-append [] r low next e a = omega arith
Ascending-append (x ∷ rows) r low next e a = (a.0, Ascending-append rows r (suc x.id) next e a.1)

-- How many rows a clause on a found row counts.
abbrev pub matches : (QueuedSend → Bool) → Option QueuedSend → ℕ
matches test none = 0
matches test (some r) = if test r then 1 else 0

count_above :
    (id : ℕ) (test : QueuedSend → Bool) (rows : List QueuedSend) (low next : ℕ)
    → suc id ≤ low
    → Ascending low rows next
    → count_where (λ r. (r.id == id) && test r) rows ≡ 0
unfolding count_where
count_above id test [] low next h a = refl
count_above id test (r ∷ rows) low next h (hr, a) =
    ground (arith, count_above id test rows (suc r.id) next (omega arith) a)

-- A statement that names an id counts the row of that id, if it passes the rest of the clause.
pub count_key :
    (id : ℕ) (test : QueuedSend → Bool) (rows : List QueuedSend) (low next : ℕ)
    → Ascending low rows next
    → count_where (λ r. (r.id == id) && test r) rows ≡ matches test (find_where (has_id id) rows)
unfolding count_where find_where
count_key id test [] low next a = refl
count_key id test (r ∷ rows) low next (hr, a) = ground (
  arith,
  count_key id test rows (suc r.id) next a,
  λ (h : suc id ≤ suc r.id). count_above id test rows (suc r.id) next h a,
)

find_above :
    (id : ℕ) (rows : List QueuedSend) (low next : ℕ)
    → suc id ≤ low
    → Ascending low rows next
    → find_where (has_id id) rows ≡ none
unfolding find_where
find_above id [] low next h a = refl
find_above id (r ∷ rows) low next h (hr, a) =
    ground (arith, find_above id rows (suc r.id) next (omega arith) a)

-- A deletion that meets the row of an id leaves no row of that id.
pub find-delete_hit :
    (id : ℕ) (test : QueuedSend → Bool) (rows : List QueuedSend) (low next : ℕ) {r : QueuedSend}
    → Ascending low rows next
    → find_where (has_id id) rows ≡ some r
    → test r ≡ true
    → find_where (has_id id) (delete_where test rows) ≡ none
unfolding find_where delete_where
find-delete_hit id test [] low next a e h = refl
find-delete_hit id test (x ∷ rows) low next {r} (hx, a) e h = ground (
  arith,
  find-delete_hit id test rows (suc x.id) next {r = r} a,
  λ (k : suc id ≤ suc x.id).
      find-delete_none (has_id id) test rows (find_above id rows (suc x.id) next k a),
)

-- A row that is found has an id that was given out.
pub found_below :
    (id : ℕ) (rows : List QueuedSend) (low next : ℕ) {r : QueuedSend}
    → Ascending low rows next
    → find_where (has_id id) rows ≡ some r
    → suc id ≤ next
unfolding find_where
found_below id [] low next a e = cc
found_below id (x ∷ rows) low next {r} (hx, a) e =
    ground
      (arith, found_below id rows (suc x.id) next {r = r} a, Ascending-le rows (suc x.id) next a)

-- How an operation may change the table: rows are rewritten under their ids, deleted, or inserted
-- under the next id.
pub data Edit (o : Outbox) : Outbox → Type 0 where
  updates :
      (test : QueuedSend → Bool) (set : QueuedSend → QueuedSend)
      → ((r : QueuedSend) → (set r).id ≡ r.id)
      → Edit o (record o { rows = update_where test set o.rows })
  deletes : (test : QueuedSend → Bool) → Edit o (record o { rows = delete_where test o.rows })
  inserts :
      (r : QueuedSend)
      → r.id ≡ o.next_id
      → Edit o (record o { rows = o.rows ++ r ∷ []; next_id = suc o.next_id })

pub data Change (o : Outbox) : Outbox → Type 0 where
  same : Change o o
  next : {o' o'' : Outbox} → Change o o' → Edit o' o'' → Change o o''

pub Change-trans : {o o' o'' : Outbox} → Change o o' → Change o' o'' → Change o o''
Change-trans c same = c
Change-trans c (next d e) = next (Change-trans c d) e

Edit-IsKeyed : {o o' : Outbox} → Edit o o' → IsKeyed o → IsKeyed o'
Edit-IsKeyed {o} (updates test set keep) k = Ascending-update test set o.rows 0 o.next_id keep k
Edit-IsKeyed {o} (deletes test) k = Ascending-delete test o.rows 0 o.next_id k
Edit-IsKeyed {o} (inserts r e) k = Ascending-append o.rows r 0 o.next_id e k

pub Change-IsKeyed : {o o' : Outbox} → Change o o' → IsKeyed o → IsKeyed o'
Change-IsKeyed same k = k
Change-IsKeyed (next c e) k = Edit-IsKeyed e (Change-IsKeyed c k)

Edit-next_id : {o o' : Outbox} → Edit o o' → o.next_id ≤ o'.next_id
Edit-next_id (updates test set keep) = omega arith
Edit-next_id (deletes test) = omega arith
Edit-next_id (inserts r e) = omega arith

pub Change-next_id : {o o' : Outbox} → Change o o' → o.next_id ≤ o'.next_id
Change-next_id same = omega arith
Change-next_id (next c e) = omega (arith, Change-next_id c, Edit-next_id e)

find-append_other :
    (i : ℕ) (rows : List QueuedSend) (r : QueuedSend)
    → suc i ≤ r.id
    → find_where (has_id i) rows ≡ none
    → find_where (has_id i) (rows ++ r ∷ []) ≡ none
unfolding find_where
find-append_other i [] r h e = ground arith
find-append_other i (x ∷ rows) r h e = ground (arith, find-append_other i rows r)

-- An id that was given out and whose row is gone stays gone: ids are not reused.
Edit-absent :
    {o o' : Outbox} (i : ℕ)
    → Edit o o'
    → suc i ≤ o.next_id
    → find_where (has_id i) o.rows ≡ none
    → find_where (has_id i) o'.rows ≡ none
Edit-absent {o} i (updates test set keep) h e =
    rw (find-update_where (has_id i) test set o.rows (λ r. ap (λ n. n == i) (keep r)), e)
Edit-absent {o} i (deletes test) h e = find-delete_none (has_id i) test o.rows e
Edit-absent {o} i (inserts r k) h e = find-append_other i o.rows r (omega arith) e

pub Change-absent :
    {o o' : Outbox} (i : ℕ)
    → Change o o'
    → suc i ≤ o.next_id
    → find_where (has_id i) o.rows ≡ none
    → find_where (has_id i) o'.rows ≡ none
Change-absent i same h e = e
Change-absent i (next c d) h e =
    Edit-absent i d (omega (arith, Change-next_id c)) (Change-absent i c h e)
