-- ===== src/Imap/Toggles/Latest.antt =====
-- No toggle is lost: a message keeps the flags that the user gave it last.
use mathlib.Core.Option
use mailclient.Base.{
  ℕ, ◌≡◌, refl, sym, ap, ◌∙◌, Bool, true, Option, none, some, List, [], ◌∷◌, ◌==◌, if◌then◌else◌,
  arith, Option-cases, inl, inr, ==_iff, and_left,
}
use mailclient.Base.Table.Laws.{find-update_where}
use mailclient.Imap.Toggles.{
  Message, has_id, set_by_user, set_clean, set_pulled, idle, set_flags, pushed, clear_flags_dirty,
  pulls, pull_flags, State, Event, toggle, list, store, store_fails, clear, pull, step, run,
}
use mailclient.Imap.Toggles.Settled.{once, row, agrees, holds, row_id, step-holds}

-- The flags of the user's last toggle of the message, or those that it had before.
abbrev pub toggled : ℕ → Event → Bool × Bool → Bool × Bool
toggled id (toggle n read starred) flags = if n == id then (read, starred) else flags
toggled id _ flags = flags

abbrev pub latest : ℕ → List Event → Bool × Bool → Bool × Bool
latest id [] flags = flags
latest id (e ∷ events) flags = latest id events (toggled id e flags)

abbrev pub flags_of : Message → Bool × Bool
flags_of m = (m.is_read, m.is_starred)

module _ (id : ℕ) where
  abbrev flags_at : State → Option (Bool × Bool)
  flags_at s = Option.map flags_of (row id s.rows)

  toggle-flags :
      (n : ℕ) (read starred : Bool) (s : State)
      → flags_at (step (toggle n read starred) s)
        ≡ Option.map (toggled id (toggle n read starred)) (flags_at s)
  unfolding step set_flags
  toggle-flags n read starred s =
      let set = set_by_user read starred in
      let law = find-update_where (has_id id) (has_id n) set s.rows (λ m. refl) in
      elim (Option-cases (row id s.rows)) [
        | inl e ↦ rw (law, e) refl
        | inr (m, e) ↦ rw (law, e) (ground (arith, row_id id s.rows m e))
      ]

  same_map : (o : Option (Bool × Bool)) → Option.map (λ flags. flags) o ≡ o
  same_map none = refl
  same_map (some flags) = refl

  clear-flags : (s : State) → flags_at (step clear s) ≡ flags_at s
  unfolding step clear_flags_dirty
  clear-flags s = elim (Option-cases s.stored) [
    | inl quiet ↦ rw (quiet) refl
    | inr (m, sent) ↦
        (let test : Message → Bool = pushed m.id m.is_read m.is_starred in
          let set = set_clean in
          let law = find-update_where (has_id id) test set s.rows (λ r. refl) in
          elim (Option-cases (row id s.rows)) [
            | inl e ↦ rw (sent, law, e) refl
            | inr (r, e) ↦ rw (sent, law, e) (ground arith)
          ])
  ]

  -- A pull writes to a clean row what it has already.
  pull-flags : (n : ℕ) (s : State) → holds id s ≡ true → flags_at (step (pull n) s) ≡ flags_at s
  unfolding step pull_flags
  pull-flags n s h =
      let set = set_pulled (s.remote n) in
      let law = find-update_where (has_id id) (pulls n) set s.rows (λ r. refl) in
      elim (Option-cases (row id s.rows)) [
        | inl e ↦ ground (arith, e, law)
        | inr (r, e) ↦
            (let told : (n == id) ≡ true → s.remote n ≡ s.remote id =
                λ p. ap s.remote ((==_iff n id).0 p) in
              ground (arith, h, e, law, row_id id s.rows r e, told))
      ]

  list-flags : (s : State) → flags_at (step list s) ≡ flags_at s
  unfolding step
  list-flags s = ground arith

  store-flags : (s : State) → flags_at (step store s) ≡ flags_at s
  unfolding step
  store-flags s = ground arith

  store_fails-flags :
      (flags : Bool × Bool) (s : State) → flags_at (step (store_fails flags) s) ≡ flags_at s
  unfolding step
  store_fails-flags flags s = ground arith

  step-flags :
      (e : Event) (s : State)
      → holds id s ≡ true
      → flags_at (step e s) ≡ Option.map (toggled id e) (flags_at s)
  step-flags (toggle n read starred) s h = toggle-flags n read starred s
  step-flags list s h = list-flags s ∙ sym (same_map (flags_at s))
  step-flags store s h = store-flags s ∙ sym (same_map (flags_at s))
  step-flags (store_fails flags) s h = store_fails-flags flags s ∙ sym (same_map (flags_at s))
  step-flags clear s h = clear-flags s ∙ sym (same_map (flags_at s))
  step-flags (pull n) s h = pull-flags n s h ∙ sym (same_map (flags_at s))

  map_twice :
      {A : Type 0} (f g : A → A) (o : Option A)
      → Option.map g (Option.map f o) ≡ Option.map (λ a. g (f a)) o
  map_twice f g none = refl
  map_twice f g (some a) = refl

  run-holds :
      (events : List Event) (s : State)
      → holds id s ≡ true
      → (flags_at (run events s) ≡ Option.map (latest id events) (flags_at s))
        × (holds id (run events s) ≡ true)
  unfolding run
  run-holds [] s h = (sym (same_map (flags_at s)), h)
  run-holds (e ∷ events) s h =
      let (flags, after) = run-holds events (step e s) (step-holds id e s h) in
      (
        flags
            ∙ ap (Option.map (latest id events)) (step-flags e s h)
            ∙ map_twice (toggled id e) (latest id events) (flags_at s),
        after,
      )

  -- No toggle is lost: over any sequence of toggles by the user, of the steps of one push at a
  -- time, stores that fail halfway among them, and of pulls between pushes, a message keeps the
  -- flags of the user's last toggle of it, or its own if there was none, and if its row is
  -- clean at the end the server has these flags. The id is at most once in the table, no push
  -- runs at the start and the server then has the flags of the row if that is clean; only these
  -- steps change the flags.
  pub run-latest :
      (events : List Event) (rows : List Message) (remote : ℕ → Bool × Bool)
      → once id rows ≡ true
      → agrees (remote id) (row id rows) ≡ true
      → (Option.map flags_of (row id (run events (idle rows remote)).rows)
          ≡ Option.map (latest id events) (Option.map flags_of (row id rows)))
        × (agrees
              ((run events (idle rows remote)).remote id)
              (row id (run events (idle rows remote)).rows)
            ≡ true)
  run-latest events rows remote unique settled =
      let s = idle rows remote in
      let (flags, after) = run-holds events s (ground (arith, unique, settled)) in
      (flags, and_left _ _ after)
