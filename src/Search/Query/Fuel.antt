-- ===== src/Search/Query/Fuel.antt =====
-- The parser's loop ends: every round takes a character, so the length of the text is fuel enough.
use mailclient.Base.{
  ℕ, zero, suc, ◌+◌, ◌≤◌, ◌≡◌, refl, Bool, true, false, Option, none, some, [], ◌∷◌, ◌==◌, length,
  arith, ap, Bool-cases, Option-cases, inl, inr,
}
use mailclient.Base.Lists.{drop}
use mailclient.Base.Text.{Text, codes, starts_with}
use mailclient.Base.Strings.{
  is_whitespace, trim_start, split_at_first, split_once, eq_ignore_ascii_case, same_text,
  to_ascii_lowercase,
}
use mailclient.Search.Query.{
  SearchFilters, SearchField, filter_token, text_token, split_field, strip_field, strip_name,
  field_name, text_round, candidate_round, round, push, parse_loop,
}

trim_start-length : (s : Text) → length (trim_start s) ≤ length s
unfolding trim_start
trim_start-length [] = omega arith
trim_start-length (c ∷ cs) = ground (arith, trim_start-length cs)

split_at_first-length :
    (test : ℕ → Bool) (s : Text)
    → length (split_at_first test s).0 + length (split_at_first test s).1 ≡ length s
unfolding split_at_first
split_at_first-length test [] = refl
split_at_first-length test (c ∷ cs) = ground (arith, split_at_first-length test cs)

drop-length : (n : ℕ) (s : Text) → length (drop n s) ≤ length s
drop-length zero s = omega arith
drop-length (suc n) [] = omega arith
drop-length (suc n) (c ∷ cs) = omega (arith, drop-length n cs)

trim_start-space :
    (c : ℕ) (cs : Text) → is_whitespace c ≡ true → trim_start (c ∷ cs) ≡ trim_start cs
unfolding trim_start
trim_start-space c cs h = rw (h) refl

split_once-length :
    (a : ℕ) (s : Text) {k v : Text} → split_once a s ≡ some (k, v) → suc (length v) ≤ length s
unfolding split_once
split_once-length a [] e = cc
split_once-length a (c ∷ cs) {k} {v} e = elim (Option-cases (split_once a cs)) [
  | inl gone ↦ ground arith
  | inr ((k', v'), e') ↦ ground (arith, split_once-length a cs {k = k'} {v = v'} e')
]

-- Behind the next word and the space after it, less is left.
behind_word :
    (c : ℕ) (cs : Text)
    → suc (length (trim_start (split_at_first is_whitespace (c ∷ cs)).1)) ≤ length (c ∷ cs)
unfolding split_at_first
behind_word c cs = elim (Bool-cases (is_whitespace c)) [
  | inl space ↦ rw (space, trim_start-space c cs space) (omega (arith, trim_start-length cs))
  | inr letter ↦
      (let tail = (split_at_first is_whitespace cs).1 in
        rw (letter) (omega (arith, split_at_first-length is_whitespace cs, trim_start-length tail)))
]

behind_word_le : (s : Text) → length (trim_start (split_at_first is_whitespace s).1) ≤ length s
unfolding trim_start split_at_first
behind_word_le [] = omega arith
behind_word_le (c ∷ cs) = omega (arith, behind_word c cs)

module _ (parse_from_str : Text → Option ℕ) (format : ℕ → Text) where
  filter_token-shorter :
      (s : Text) (negated : Bool) (f : SearchFilters) (tail : Text) (f' : SearchFilters)
      → filter_token parse_from_str format s negated f ≡ some (tail, f')
      → suc (length tail) ≤ length s
  unfolding filter_token
  filter_token-shorter s negated f tail f' e =
      let word = (split_at_first is_whitespace s).0 in
      let after = (split_at_first is_whitespace s).1 in
      let next = (split_at_first is_whitespace (trim_start after)).1 in
      elim (Option-cases (split_once b':' word)) [
        | inl gone ↦ ground (arith, gone, e)
        | inr ((k, v), found) ↦ ground (
          arith,
          found,
          split_once-length b':' word {k = k} {v = v} found,
          split_at_first-length is_whitespace s,
          trim_start-length after,
          behind_word_le (trim_start after),
        )
      ]

strip_name-shorter :
    (c : ℕ) (name s r : Text) → strip_name (c ∷ name) s ≡ some r → suc (length r) ≤ length s
unfolding strip_name eq_ignore_ascii_case same_text to_ascii_lowercase
strip_name-shorter c name [] r e = ground arith
strip_name-shorter c name (d ∷ ds) r e = ground (arith, drop-length (length name) ds)

strip_field-shorter :
    (s : Text) (f : SearchField) (r : Text)
    → strip_field s ≡ some (f, r)
    → suc (length r) ≤ length s
unfolding strip_field field_name
strip_field-shorter s f r e =
    let from_shorter = strip_name-shorter b'f' (codes "rom:") s r in
    let to_shorter = strip_name-shorter b't' (codes "o:") s r in
    let subject_shorter = strip_name-shorter b's' (codes "ubject:") s r in
    elim (Option-cases (strip_name (codes "from:") s)) [
      | inr (r', e') ↦ ground (arith, e, e', from_shorter)
      | inl gone ↦ elim (Option-cases (strip_name (codes "to:") s)) [
        | inr (r', e') ↦ ground (arith, e, gone, e', to_shorter)
        | inl gone' ↦ elim (Option-cases (strip_name (codes "subject:") s)) [
          | inr (r', e') ↦ ground (arith, e, gone, gone', e', subject_shorter)
          | inl gone'' ↦ ground (arith, e, gone, gone', gone'')
        ]
      ]
    ]

text_token-shorter :
    (c : ℕ) (cs : Text) → suc (length (trim_start (text_token (c ∷ cs)).2)) ≤ length (c ∷ cs)
unfolding text_token
text_token-shorter c cs =
    let tail = (split_at_first (λ (c : ℕ). c == b'"') cs).1 in
    elim (Bool-cases (c == b'"')) [
      | inl quote ↦ rw (quote) (
          omega (
            arith,
            split_at_first-length (λ (c : ℕ). c == b'"') cs,
            drop-length 1 tail,
            trim_start-length (drop 1 tail),
          ))
      | inr word ↦ rw (word) (behind_word c cs)
    ]

text_token-le : (s : Text) → length (trim_start (text_token s).2) ≤ length s
unfolding text_token trim_start
text_token-le [] = omega arith
text_token-le (c ∷ cs) = omega (arith, text_token-shorter c cs)

module _ (is_alphanumeric : ℕ → Bool) (parse_from_str : Text → Option ℕ) (format : ℕ → Text) where
  text_round-shorter :
      (c : ℕ) (cs : Text) (negated : Bool) (f : SearchFilters)
      → suc (length (text_round is_alphanumeric parse_from_str format (c ∷ cs) negated f).rest)
        ≤ length (c ∷ cs)
  unfolding text_round split_field
  text_round-shorter c cs negated f = elim (Option-cases (strip_field (c ∷ cs))) [
    | inl none_there ↦ ground (arith, none_there, text_token-shorter c cs)
    | inr ((g, r), e) ↦ ground (
      arith,
      e,
      strip_field-shorter (c ∷ cs) g r e,
      trim_start-length r,
      text_token-le (trim_start r),
    )
  ]

  text_round-le :
      (s : Text) (negated : Bool) (f : SearchFilters)
      → length (text_round is_alphanumeric parse_from_str format s negated f).rest ≤ length s
  unfolding text_round split_field strip_field strip_name eq_ignore_ascii_case same_text
      to_ascii_lowercase field_name text_token trim_start
  text_round-le [] negated f = omega arith
  text_round-le (c ∷ cs) negated f = omega (arith, text_round-shorter c cs negated f)

  pub no_filter_round :
      (s : Text) (negated : Bool) (f : SearchFilters)
      → filter_token parse_from_str format s negated f ≡ none
      → candidate_round is_alphanumeric parse_from_str format s negated f
        ≡ text_round is_alphanumeric parse_from_str format s negated f
  unfolding candidate_round
  no_filter_round s negated f e = rw (e, candidate_round) refl

  pub filter_round :
      (s : Text) (negated : Bool) (f : SearchFilters) (tail : Text) (f' : SearchFilters)
      → filter_token parse_from_str format s negated f ≡ some (tail, f')
      → candidate_round is_alphanumeric parse_from_str format s negated f
        ≡ record { rest = tail; found = none; filters = f' }
  unfolding candidate_round
  filter_round s negated f tail f' e = rw (e, candidate_round) refl

  candidate_round-shorter :
      (c : ℕ) (cs : Text) (negated : Bool) (f : SearchFilters)
      → suc (length (candidate_round is_alphanumeric parse_from_str format (c ∷ cs) negated f).rest)
        ≤ length (c ∷ cs)
  candidate_round-shorter c cs negated f =
      elim (Option-cases (filter_token parse_from_str format (c ∷ cs) negated f)) [
        | inl gone ↦
            rw (no_filter_round (c ∷ cs) negated f gone) (text_round-shorter c cs negated f)
        | inr ((tail, f'), e) ↦
            rw (filter_round (c ∷ cs) negated f tail f' e)
              (filter_token-shorter parse_from_str format (c ∷ cs) negated f tail f' e)
      ]

  candidate_round-le :
      (s : Text) (negated : Bool) (f : SearchFilters)
      → length (candidate_round is_alphanumeric parse_from_str format s negated f).rest ≤ length s
  unfolding candidate_round filter_token split_at_first split_once
  candidate_round-le [] negated f = text_round-le [] negated f
  candidate_round-le (c ∷ cs) negated f = omega (arith, candidate_round-shorter c cs negated f)

  round-shorter :
      (c : ℕ) (cs : Text) (f : SearchFilters)
      → suc (length (round is_alphanumeric parse_from_str format (c ∷ cs) f).rest) ≤ length (c ∷ cs)
  unfolding round
  round-shorter c cs f = elim (Bool-cases (starts_with (b'-' ∷ []) (c ∷ cs))) [
    | inl dash ↦ rw (dash, round) (omega (arith, candidate_round-le cs true f))
    | inr plain ↦ rw (plain, round) (candidate_round-shorter c cs false f)
  ]

  pub parse_loop-fuel :
      (n m : ℕ) (s : Text) (f : SearchFilters)
      → length s ≤ n
      → length s ≤ m
      → parse_loop is_alphanumeric parse_from_str format n s f
        ≡ parse_loop is_alphanumeric parse_from_str format m s f
  unfolding parse_loop
  parse_loop-fuel n m [] f h h' = refl
  parse_loop-fuel zero m (c ∷ cs) f h h' = absurd (omega arith)
  parse_loop-fuel (suc n) zero (c ∷ cs) f h h' = absurd (omega arith)
  parse_loop-fuel (suc n) (suc m) (c ∷ cs) f h h' =
      let r = round is_alphanumeric parse_from_str format (c ∷ cs) f in
      ap (push r.found) (
        parse_loop-fuel n m r.rest r.filters (omega (arith, round-shorter c cs f))
          (omega (arith, round-shorter c cs f)))
