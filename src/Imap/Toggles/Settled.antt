-- ===== src/Imap/Toggles/Settled.antt =====
-- What holds of a message, whatever happens while a push runs.

use mailclient.Base.{
  ℕ, ◌≡◌, refl, ap, Bool, true, false, not, ◌&&◌, ◌||◌, Option, none, some, List, [], ◌∷◌, ◌==◌,
  arith, Option-cases, inl, inr, ==_iff,
}
use mailclient.Base.Table.{update_where, select_where, find_where}
use mailclient.Base.Table.Laws.{find-update_where, find_where-test}
use mailclient.Imap.Toggles.{
  Message, same, has_id, set_by_user, set_clean, set_pulled, set_flags, list_flags_dirty, pushed,
  clear_flags_dirty, pulls, pull_flags, State, Event, toggle, list, store, store_fails, clear, pull,
  step,
}

abbrev in_list : ℕ → List Message → Bool
in_list id [] = false
in_list id (m ∷ ms) = (m.id == id) || in_list id ms

-- At most one message has the id.
abbrev pub once : ℕ → List Message → Bool
once id [] = true
once id (m ∷ ms) = (not (m.id == id) || not (in_list id ms)) && once id ms

abbrev pub row : ℕ → List Message → Option Message
row id rows = find_where (has_id id) rows

abbrev dirty : Option Message → Bool
dirty none = true
dirty (some m) = m.flags_dirty

abbrev flags_are : Bool × Bool → Message → Bool
flags_are (read, starred) m = same m.is_read read && same m.is_starred starred

-- The server has the flags of a clean row.
abbrev pub agrees : Bool × Bool → Option Message → Bool
agrees flags none = true
agrees flags (some m) = m.flags_dirty || flags_are flags m

-- What is known of the message that is stored but not cleared yet.
abbrev awaits : ℕ → Option Message → Bool × Bool → Option Message → List Message → Bool
awaits id none flags x left = true
awaits id (some m) flags x left =
    not (m.id == id) || (dirty x && (flags_are flags m && not (in_list id left)))

abbrev pub holds : ℕ → State → Bool
holds id s =
    agrees (s.remote id) (row id s.rows)
    && ((not (in_list id s.left) || dirty (row id s.rows))
        && (once id s.left
            && (once id s.rows && awaits id s.stored (s.remote id) (row id s.rows) s.left)))

in_list-update :
    (id : ℕ) (test : Message → Bool) (set : Message → Message) (rows : List Message)
    → ((m : Message) → (set m).id ≡ m.id)
    → in_list id (update_where test set rows) ≡ in_list id rows
unfolding update_where
in_list-update id test set [] keep = refl
in_list-update id test set (m ∷ rows) keep =
    ground (arith, keep m, in_list-update id test set rows keep)

once-update :
    (id : ℕ) (test : Message → Bool) (set : Message → Message) (rows : List Message)
    → ((m : Message) → (set m).id ≡ m.id)
    → once id (update_where test set rows) ≡ once id rows
unfolding update_where
once-update id test set [] keep = refl
once-update id test set (m ∷ rows) keep =
    ground (arith, keep m, in_list-update id test set rows keep, once-update id test set rows keep)

in_list-dirty :
    (id : ℕ) (rows : List Message)
    → (not (in_list id (list_flags_dirty rows)) || in_list id rows) ≡ true
unfolding list_flags_dirty select_where
in_list-dirty id [] = refl
in_list-dirty id (m ∷ rows) = ground (arith, in_list-dirty id rows)

once-dirty :
    (id : ℕ) (rows : List Message) → once id rows ≡ true → once id (list_flags_dirty rows) ≡ true
unfolding list_flags_dirty select_where
once-dirty id [] h = refl
once-dirty id (m ∷ rows) h = ground (arith, once-dirty id rows, in_list-dirty id rows)

listed-dirty :
    (id : ℕ) (rows : List Message)
    → once id rows ≡ true
    → (not (in_list id (list_flags_dirty rows)) || dirty (row id rows)) ≡ true
unfolding list_flags_dirty select_where find_where
listed-dirty id [] h = refl
listed-dirty id (m ∷ rows) h = ground (arith, listed-dirty id rows, in_list-dirty id rows)

module _ (id : ℕ) where
  pub row_id : (rows : List Message) (m : Message) → row id rows ≡ some m → (m.id == id) ≡ true
  row_id rows m e = find_where-test (has_id id) rows e

  toggle-holds :
      (n : ℕ) (read starred : Bool) (s : State)
      → holds id s ≡ true
      → holds id (step (toggle n read starred) s) ≡ true
  unfolding step set_flags
  toggle-holds n read starred s h =
      let set = set_by_user read starred in
      let law = find-update_where (has_id id) (has_id n) set s.rows (λ m. refl) in
      let unique = once-update id (has_id n) set s.rows (λ m. refl) in
      elim (Option-cases (row id s.rows)) [
        | inl e ↦ rw (law, unique, e) (ground (arith, h, e))
        | inr (m, e) ↦ rw (law, unique, e) (ground (arith, h, e, row_id s.rows m e))
      ]

  list-holds : (s : State) → holds id s ≡ true → holds id (step list s) ≡ true
  unfolding step
  list-holds s h = ground (arith, h, once-dirty id s.rows, listed-dirty id s.rows)

  store-holds : (s : State) → holds id s ≡ true → holds id (step store s) ≡ true
  unfolding step
  store-holds s h = ground (arith, h)

  store_fails-holds :
      (flags : Bool × Bool) (s : State)
      → holds id s ≡ true
      → holds id (step (store_fails flags) s) ≡ true
  unfolding step
  store_fails-holds flags s h = ground (arith, h)

  clear-holds : (s : State) → holds id s ≡ true → holds id (step clear s) ≡ true
  unfolding step clear_flags_dirty
  clear-holds s h = elim (Option-cases s.stored) [
    | inl quiet ↦ rw (quiet) (rw (quiet) at h)
    | inr (m, sent) ↦
        (let test : Message → Bool = pushed m.id m.is_read m.is_starred in
          let set = set_clean in
          let law = find-update_where (has_id id) test set s.rows (λ r. refl) in
          let unique = once-update id test set s.rows (λ r. refl) in
          elim (Option-cases (row id s.rows)) [
            | inl e ↦ rw (sent, law, unique, e) (ground (arith, h, e, sent))
            | inr (r, e) ↦ rw (sent, law, unique, e) (ground (arith, h, e, sent, row_id s.rows r e))
          ])
  ]

  pull-holds : (n : ℕ) (s : State) → holds id s ≡ true → holds id (step (pull n) s) ≡ true
  unfolding step pull_flags
  pull-holds n s h =
      let set = set_pulled (s.remote n) in
      let law = find-update_where (has_id id) (pulls n) set s.rows (λ r. refl) in
      let unique = once-update id (pulls n) set s.rows (λ r. refl) in
      elim (Option-cases (row id s.rows)) [
        | inl e ↦ ground (arith, h, e, law, unique)
        | inr (r, e) ↦
            (let told : (n == id) ≡ true → s.remote n ≡ s.remote id =
                λ p. ap s.remote ((==_iff n id).0 p) in
              ground (arith, h, e, law, unique, row_id s.rows r e, told))
      ]

  pub step-holds : (e : Event) (s : State) → holds id s ≡ true → holds id (step e s) ≡ true
  step-holds (toggle n read starred) s h = toggle-holds n read starred s h
  step-holds list s h = list-holds s h
  step-holds store s h = store-holds s h
  step-holds (store_fails flags) s h = store_fails-holds flags s h
  step-holds clear s h = clear-holds s h
  step-holds (pull n) s h = pull-holds n s h
