-- ===== src/Outbox/Schedule/Notices.antt =====
-- Scheduled sends that gave up are reported once.
use mailclient.Base.{
  ℕ, ◌≡◌, refl, String, Bool, true, false, Option, List, [], ◌∷◌, if◌then◌else◌, arith, map, sym,
  ◌∙◌, ap, Bool-cases, inl, inr, All, eq_self,
}
use mailclient.Base.Order.{contains}
use mailclient.Base.Table.{update_where, select_where, order_by}
use mailclient.Base.Table.Laws.{contains-order_by}
use mailclient.Outbox.Row.{QueuedSend, Outbox, has_id}
use mailclient.Outbox.Schedule.{unreported, mark_each, take_failure_notices}

abbrev noticed : QueuedSend → QueuedSend
noticed r = record r { failure_noticed = true }

abbrev ids : List QueuedSend → List ℕ
ids = map (λ (r : QueuedSend). r.id)

abbrev mark_ids : List ℕ → List QueuedSend → List QueuedSend
mark_ids ns [] = []
mark_ids ns (r ∷ rows) = (if contains r.id ns then noticed r else r) ∷ mark_ids ns rows

mark_ids-nil : (rows : List QueuedSend) → mark_ids [] rows ≡ rows
unfolding contains
mark_ids-nil [] = refl
mark_ids-nil (r ∷ rows) = ap (λ (t : List QueuedSend). r ∷ t) (mark_ids-nil rows)

mark_ids-cons :
    (n : ℕ) (ns : List ℕ) (rows : List QueuedSend)
    → mark_ids ns (update_where (has_id n) noticed rows) ≡ mark_ids (n ∷ ns) rows
unfolding contains update_where
mark_ids-cons n ns [] = refl
mark_ids-cons n ns (r ∷ rows) = ground (arith, mark_ids-cons n ns rows)

module _ (subject_from_mime : List ℕ → Option String) where
  mark_each-ids :
      (rs : List QueuedSend) (o : Outbox)
      → mark_each subject_from_mime rs o ≡ record o { rows = mark_ids (ids rs) o.rows }
  unfolding mark_each
  mark_each-ids [] o =
      ap (λ (t : List QueuedSend). record o { rows = t }) (sym (mark_ids-nil o.rows))
  mark_each-ids (r ∷ rs) o =
      mark_each-ids rs (record o { rows = update_where (has_id r.id) noticed o.rows })
      ∙ ap (λ (t : List QueuedSend). record o { rows = t }) (mark_ids-cons r.id (ids rs) o.rows)

-- Every row that wants a report has its id in the list.
abbrev Covered : List ℕ → List QueuedSend → Type 0
Covered ns = All (λ r. unreported r ≡ true → contains r.id ns ≡ true)

Covered-cons :
    (n : ℕ) (ns : List ℕ) (rows : List QueuedSend) → Covered ns rows → Covered (n ∷ ns) rows
unfolding contains
Covered-cons n ns [] h = tt
Covered-cons n ns (r ∷ rows) (h, hs) = (λ u. ground (arith, h u), Covered-cons n ns rows hs)

Covered-if :
    (b : Bool) (r : QueuedSend) (rest rows : List QueuedSend)
    → unreported r ≡ b
    → Covered (ids rest) rows
    → Covered (ids (if b then r ∷ rest else rest)) (r ∷ rows)
unfolding contains
Covered-if true r rest rows u h =
    (λ _. ground (arith, eq_self r.id), Covered-cons r.id (ids rest) rows h)
Covered-if false r rest rows u h = (λ v. cc, h)

Covered-select : (rows : List QueuedSend) → Covered (ids (select_where unreported rows)) rows
unfolding select_where
Covered-select [] = tt
Covered-select (r ∷ rows) =
    Covered-if (unreported r) r (select_where unreported rows) rows refl (Covered-select rows)

Covered-ext :
    (ns ns' : List ℕ) (rows : List QueuedSend)
    → ((n : ℕ) → contains n ns' ≡ contains n ns)
    → Covered ns rows
    → Covered ns' rows
Covered-ext ns ns' [] e h = tt
Covered-ext ns ns' (r ∷ rows) e (h, hs) = (λ u. e r.id ∙ h u, Covered-ext ns ns' rows e hs)

-- Once they are marked, nothing wants a report.
select-mark_ids :
    (ns : List ℕ) (rows : List QueuedSend)
    → Covered ns rows
    → select_where unreported (mark_ids ns rows) ≡ []
unfolding select_where
select-mark_ids ns [] h = refl
select-mark_ids ns (r ∷ rows) (h, hs) = elim (Bool-cases (unreported r)) [
  | inl u ↦ ground (arith, h u, select-mark_ids ns rows hs)
  | inr n ↦ ground (arith, select-mark_ids ns rows hs)
]

module _ (subject_from_mime : List ℕ → Option String) where
  take-none :
      (o : Outbox)
      → select_where unreported o.rows ≡ []
      → take_failure_notices subject_from_mime o ≡ (o, [])
  unfolding take_failure_notices mark_each order_by
  take-none o e = rw (e, take_failure_notices)

  -- What a first call reports, a second does not: it returns nothing and changes nothing.
  pub notices_once :
      (o : Outbox)
      → take_failure_notices subject_from_mime (take_failure_notices subject_from_mime o).0
        ≡ ((take_failure_notices subject_from_mime o).0, [])
  unfolding take_failure_notices
  notices_once o =
      let rows = order_by (λ (r : QueuedSend). r.updated_at) (select_where unreported o.rows) in
      let covered =
        Covered-ext (ids (select_where unreported o.rows)) (ids rows) o.rows
          (λ n.
            contains-order_by (λ r. r.updated_at) (λ r. r.id) n (select_where unreported o.rows))
          (Covered-select o.rows) in
      take-none (mark_each subject_from_mime rows o)
        (rw (mark_each-ids subject_from_mime rows o) (select-mark_ids (ids rows) o.rows covered))
