-- ===== src/Outbox/Schedule/Writes/Due.antt =====
-- A failed attempt, and the failure of all due rows, at a row that they do not name.
use mailclient.Base.{
  ℕ, suc, ◌≤◌, ◌≡◌, refl, String, Bool, false, List, [], ◌∷◌, ◌==◌, map, arith, All, inl, inr,
  Bool-cases, some,
}
use mailclient.Base.Results.{Result-cases}
use mailclient.Base.Table.{find_where, select_where}
use mailclient.Base.Table.Laws.{find_where-test}
use mailclient.Outbox.Row.{QueuedSend, Outbox, has_id, stamp}
use mailclient.Outbox.Keys.{IsKeyed, Ascending, Change, same, next, updates, Change-trans}
use mailclient.Outbox.Store.{get}
use mailclient.Outbox.Store.Steps.{Holds, update-Holds}
use mailclient.Outbox.Schedule.{fail_scheduled_attempt, due_attempt, fail_each, fail_due_scheduled}

pub attempt-Change :
    (id : ℕ) (error : String) (permanent : Bool) (now : ℕ) (o : Outbox)
    → Change o (fail_scheduled_attempt id error permanent now o).0
unfolding fail_scheduled_attempt
attempt-Change id error permanent now o = elim (Result-cases (get id o)) [
  | inl (r, e) ↦ rw (e, fail_scheduled_attempt) (next same (updates (has_id id) _ (λ r. refl)))
  | inr (why, e) ↦ rw (e, fail_scheduled_attempt) same
]

pub attempt-Holds :
    (i id : ℕ) (error : String) (permanent : Bool) (now : ℕ) (o : Outbox) (r : QueuedSend)
    → has_id id r ≡ false
    → Holds i r o
    → Holds i r (fail_scheduled_attempt id error permanent now o).0
unfolding fail_scheduled_attempt
attempt-Holds i id error permanent now o r other e = elim (Result-cases (get id o)) [
  | inl (x, good) ↦
      rw (good, fail_scheduled_attempt) (update-Holds i (has_id id) _ o.rows (λ x. refl) e other)
  | inr (why, bad) ↦ rw (bad, fail_scheduled_attempt) e
]

each-Change :
    (ids : List ℕ) (error : String) (now : ℕ) (o : Outbox) → Change o (fail_each ids error now o).0
unfolding fail_each
each-Change [] error now o = same
each-Change (id ∷ ids) error now o =
    let o' = (fail_scheduled_attempt id error false now o).0 in
    let first = attempt-Change id error false now o in
    elim (Result-cases (fail_scheduled_attempt id error false now o).1) [
      | inl (d, e) ↦ rw (e, fail_each) (Change-trans first (each-Change ids error now o'))
      | inr (why, e) ↦ rw (e, fail_each) first
    ]

each-Holds :
    (i : ℕ) (ids : List ℕ) (error : String) (now : ℕ) (o : Outbox) (r : QueuedSend)
    → All (λ id. has_id id r ≡ false) ids
    → Holds i r o
    → Holds i r (fail_each ids error now o).0
unfolding fail_each
each-Holds i [] error now o r others e = e
each-Holds i (id ∷ ids) error now o r (other, others) e =
    let o' = (fail_scheduled_attempt id error false now o).0 in
    let first = attempt-Holds i id error false now o r other e in
    elim (Result-cases (fail_scheduled_attempt id error false now o).1) [
      | inl (d, good) ↦ rw (good, fail_each) (each-Holds i ids error now o' r others first)
      | inr (why, bad) ↦ rw (bad, fail_each) first
    ]

pub due-Change :
    (account : ℕ) (error : String) (now : ℕ) (o : Outbox)
    → Change o (fail_due_scheduled account error now o).0
unfolding fail_due_scheduled
due-Change account error now o =
    let ids =
      map (λ (r : QueuedSend). r.id) (select_where (due_attempt account (stamp now)) o.rows) in
    elim (Result-cases (fail_each ids error now o).1) [
      | inl (d, e) ↦ rw (e, fail_due_scheduled) (each-Change ids error now o)
      | inr (why, e) ↦ rw (e, fail_due_scheduled) (each-Change ids error now o)
    ]

-- The ids above `low` are no id below it.
selected_above :
    (i : ℕ) (test : QueuedSend → Bool) (rows : List QueuedSend) (low top : ℕ)
    → suc i ≤ low
    → Ascending low rows top
    → All (λ id. (i == id) ≡ false) (map (λ (r : QueuedSend). r.id) (select_where test rows))
unfolding select_where
selected_above i test [] low top h a = tt
selected_above i test (x ∷ rows) low top h (hx, a) =
    let rest = selected_above i test rows (suc x.id) top (omega arith) a in
    elim (Bool-cases (test x)) [ inl hit ↦ rw hit (ground arith, rest) | inr miss ↦ rw miss rest ]

-- The id of a row that fails the test is not among those of the rows that pass it.
selected_others :
    (i : ℕ) (test : QueuedSend → Bool) (rows : List QueuedSend) (low top : ℕ) {r : QueuedSend}
    → Ascending low rows top
    → find_where (has_id i) rows ≡ some r
    → test r ≡ false
    → All (λ id. (i == id) ≡ false) (map (λ (r : QueuedSend). r.id) (select_where test rows))
unfolding select_where find_where
selected_others i test [] low top a e h = tt
selected_others i test (x ∷ rows) low top {r} (hx, a) e h = elim (Bool-cases (has_id i x)) [
  | inl this ↦
      (let is_r : test x ≡ false = ground arith in
        rw is_r (selected_above i test rows (suc x.id) top (ground arith) a))
  | inr other ↦
      (let rest = selected_others i test rows (suc x.id) top {r = r} a (ground arith) h in
        elim (Bool-cases (test x)) [
          | inl hit ↦ rw hit (ground arith, rest)
          | inr miss ↦ rw miss rest
        ])
]

pub due-Holds :
    (i account : ℕ) (error : String) (now : ℕ) (o : Outbox) (r : QueuedSend)
    → IsKeyed o
    → Holds i r o
    → due_attempt account (stamp now) r ≡ false
    → Holds i r (fail_due_scheduled account error now o).0
unfolding fail_due_scheduled
due-Holds i account error now o r k e h =
    let ids =
      map (λ (r : QueuedSend). r.id) (select_where (due_attempt account (stamp now)) o.rows) in
    let this : r.id ≡ i = ground (arith, find_where-test (has_id i) o.rows e) in
    let others : All (λ id. has_id id r ≡ false) ids =
      rw (this) (selected_others i (due_attempt account (stamp now)) o.rows 0 o.next_id k e h) in
    let kept = each-Holds i ids error now o r others e in
    elim (Result-cases (fail_each ids error now o).1) [
      | inl (d, good) ↦ rw (good, fail_due_scheduled) kept
      | inr (why, bad) ↦ rw (bad, fail_due_scheduled) kept
    ]
