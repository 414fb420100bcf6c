-- ===== src/Search/ListFilter/Range.antt =====
-- What a checked date range means.
use mathlib.Core.Path.{subst}
use mailclient.Base.{
  ℕ, ◌≡◌, refl, sym, ap, ◌∙◌, Bool, true, false, not, ◌&&◌, ◌||◌, Option, none, some, [], ◌∷◌, ◌==◌,
  is_empty, length, arith, Bool-cases, Option-cases, inl, inr, and_left, and_right,
}
use mailclient.Base.Text.{Text}
use mailclient.Base.Strings.{
  trim, trim_start, trim_end, split_at_first, all, is_ascii_digit, is_whitespace,
}
use mailclient.Search.Query.{normalise_date}
use mailclient.Search.Dates.{text_lt}
use mailclient.Search.ListFilter.{ListFilter, ListRow, passes, read, date_range_check, range_of}

-- A year of four digits, as `normalise_date` looks for it.
abbrev pub has_year : Text → Bool
unfolding split_at_first all is_ascii_digit
has_year s =
    let year = (split_at_first (λ (c : ℕ). c == b'-') s).0 in
    (length year == 4) && all is_ascii_digit year

abbrev pub IsDigit : ℕ → Type 0
IsDigit c = is_ascii_digit c ≡ true

-- `2026-09-01`
pub data IsIso : Text → Type 0 where
  iso :
      (a b c d e f g h : ℕ)
      → IsDigit a
      → IsDigit b
      → IsDigit c
      → IsDigit d
      → IsDigit e
      → IsDigit f
      → IsDigit g
      → IsDigit h
      → IsIso (a ∷ b ∷ c ∷ d ∷ b'-' ∷ e ∷ f ∷ b'-' ∷ g ∷ h ∷ [])

digit_solid : (c : ℕ) → IsDigit c → is_whitespace c ≡ false
unfolding is_ascii_digit is_whitespace
digit_solid c h = ground arith

digit_dashless : (c : ℕ) → IsDigit c → (c == b'-') ≡ false
unfolding is_ascii_digit
digit_dashless c h = ground arith

iso-trim : (t : Text) → IsIso t → trim t ≡ t
unfolding trim trim_start trim_end
iso-trim t (iso a b c d e f g h ha hb hc hd he hf hg hh) =
    rw
      (
        digit_solid a ha,
        digit_solid b hb,
        digit_solid c hc,
        digit_solid d hd,
        digit_solid e he,
        digit_solid f hf,
        digit_solid g hg,
        digit_solid h hh,
        digit_solid a ha,
      )
      refl

iso-year : (t : Text) → IsIso t → has_year t ≡ true
unfolding has_year split_at_first all
iso-year t (iso a b c d e f g h ha hb hc hd he hf hg hh) =
    rw
      (
        digit_dashless a ha,
        digit_dashless b hb,
        digit_dashless c hc,
        digit_dashless d hd,
        ha,
        hb,
        hc,
        hd,
      )
      refl

iso_there : (t : Text) → IsIso t → is_empty t ≡ false
iso_there t (iso a b c d e f g h ha hb hc hd he hf hg hh) = refl

empty : (t : Text) → is_empty t ≡ true → t ≡ []
empty [] h = refl
empty (c ∷ cs) h = cc

-- A day that chrono reads behind a year of four digits is printed in the ten characters of ISO 8601,
-- from which it is read again.
abbrev pub Canonical : (Text → Option ℕ) → (ℕ → Text) → Type 0
Canonical parse_from_str format =
    (s : Text) (d : ℕ)
    → has_year s ≡ true
    → parse_from_str s ≡ some d
    → IsIso (format d) × (parse_from_str (format d) ≡ some d)

not_both : (p q : Bool) → (p && q) ≡ false → (not p || not q) ≡ true
not_both p q h = ground arith

not_blank : {c : ℕ} {cs : Text} → c ∷ cs ≡ [] → ⊥
not_blank h = cc

not_some : {a : Text} → none ≡ some a → ⊥
not_some h = cc

some_same : {a b : Text} → some a ≡ some b → a ≡ b
some_same h = cc

-- The filter with other date bounds.
abbrev pub bounded : ListFilter → Text → Text → ListFilter
bounded f after before = record f { after = after; before = before }

in_order : (p q o : Bool) → ((not p && not q) && not o) ≡ false → (p || q || o) ≡ true
in_order p q o h = ground arith

-- What a check that reports nothing gives back.
checked :
    (after before : Text) (o p : Option Text)
    → (range_of after before o p).error ≡ []
    → (let r = range_of after before o p in
        (o ≡ some r.after)
        × (p ≡ some r.before)
        × (((not (is_empty r.after) && not (is_empty r.before)) && not (text_lt r.after r.before))
            ≡ false))
unfolding range_of
checked after before none p h = cc
checked after before (some a) none h = cc
checked after before (some a) (some b) h =
    elim (Bool-cases ((not (is_empty a) && not (is_empty b)) && not (text_lt a b))) [
      | inl bad ↦ absurd (not_blank (rw (bad) at h))
      | inr fine ↦ rw (fine) (refl, refl, fine)
    ]

module _ (parse_from_str : Text → Option ℕ) (format : ℕ → Text)
    (canonical : Canonical parse_from_str format) where
  normalise : Text → Option Text
  unfolding normalise_date
  normalise = normalise_date parse_from_str format

  no_year : (s a : Text) → has_year s ≡ false → normalise s ≡ some a → ⊥
  unfolding normalise normalise_date
  no_year s a bad e =
      let year = (split_at_first (λ (c : ℕ). c == b'-') s).0 in
      not_some (rw (not_both (length year == 4) (all is_ascii_digit year) bad) at e)

  no_day : (s a : Text) → has_year s ≡ true → parse_from_str s ≡ none → normalise s ≡ some a → ⊥
  unfolding normalise normalise_date
  no_day s a year bad e =
      let year_of = (split_at_first (λ (c : ℕ). c == b'-') s).0 in
      not_some (
        rw
          (
            and_left (length year_of == 4) (all is_ascii_digit year_of) year,
            and_right (length year_of == 4) (all is_ascii_digit year_of) year,
            bad,
          )
          at e)

  normalise-day :
      (s : Text) (d : ℕ)
      → has_year s ≡ true
      → parse_from_str s ≡ some d
      → normalise s ≡ some (format d)
  unfolding normalise normalise_date has_year
  normalise-day s d year e =
      let year_of = (split_at_first (λ (c : ℕ). c == b'-') s).0 in
      rw
        (
          and_left (length year_of == 4) (all is_ascii_digit year_of) year,
          and_right (length year_of == 4) (all is_ascii_digit year_of) year,
          e,
        )
        refl

  -- A normalised day is its own normal form.
  normalise-again : (s a : Text) → normalise s ≡ some a → IsIso a × (normalise a ≡ some a)
  unfolding normalise normalise_date has_year
  normalise-again s a e = elim (Bool-cases (has_year s)) [
    | inr bad ↦ absurd (no_year s a bad e)
    | inl year ↦ elim (Option-cases (parse_from_str s)) [
      | inl bad ↦ absurd (no_day s a year bad e)
      | inr (d, e') ↦
          (let q = some_same (sym (normalise-day s d year e') ∙ e) in
            let (is_iso, back) = canonical s d year e' in
            subst (λ x. IsIso x × (normalise x ≡ some x)) q
              (is_iso, normalise-day (format d) d (iso-year (format d) is_iso) back))
    ]
  ]

  read-same :
      (s a : Text) → read parse_from_str format s ≡ some a → normalise (trim a) ≡ normalise (trim s)
  unfolding normalise read trim
  read-same s a e = elim (Bool-cases (is_empty (trim s))) [
    | inl blank ↦
        (let q : [] ≡ a = some_same (rw (blank) at e) in
          subst (λ x. normalise (trim x) ≡ normalise (trim s)) q
            (ap normalise (sym (empty (trim s) blank))))
    | inr typed ↦
        (let day : normalise (trim s) ≡ some a = rw (typed) at e in
          let (is_iso, again) = normalise-again (trim s) a day in
          ap normalise (iso-trim a is_iso) ∙ again ∙ sym day)
  ]

  -- With chrono reading the days that it prints, a range that the check finds nothing wrong
  -- with filters as what was typed, whatever else is filtered for; where it has both bounds,
  -- the first is before the second.
  pub date_range_check-same :
      (to_lowercase : Text → Text) (after before : Text) (f : ListFilter) (row : ListRow)
      → (date_range_check parse_from_str format after before).error ≡ []
      → (let r = date_range_check parse_from_str format after before in
          (passes to_lowercase parse_from_str format (bounded f r.after r.before) row
            ≡ passes to_lowercase parse_from_str format (bounded f after before) row)
          × ((is_empty r.after || is_empty r.before || text_lt r.after r.before) ≡ true))
  unfolding date_range_check passes normalise
  date_range_check-same to_lowercase after before f row h =
      let r = date_range_check parse_from_str format after before in
      let (a_read, b_read, order) =
        checked (trim after) (trim before) (read parse_from_str format after)
          (read parse_from_str format before) h in
      (
        rw (read-same after r.after a_read, read-same before r.before b_read) refl,
        in_order (is_empty r.after) (is_empty r.before) (text_lt r.after r.before) order,
      )
