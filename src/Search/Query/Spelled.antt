-- ===== src/Search/Query/Spelled.antt =====
-- Terms printed as the syntax help shows them, and how the parser reads one of them.
use mailclient.Base.{
  ℕ, ◌≤◌, ◌≡◌, ◌≢◌, refl, ap, ◌∙◌, Bool, true, false, ◌&&◌, Option, none, some, List, [], ◌∷◌, ◌++◌,
  if◌then◌else◌, is_empty, map, length, append_assoc, arith,
}
use mailclient.Base.Text.{Text, starts_with}
use mailclient.Base.Strings.{
  any, is_whitespace, split_at_first, split_once, split_whitespace, same_text, to_ascii_lowercase,
  lower, eq_ignore_ascii_case, trim_start, join,
}
use mailclient.Search.Query.{
  SearchField, any_field, from, to, subject, SearchTerm, SearchFilters, is_mark, strip_name,
  strip_field, split_field, field_name, text_token, filter_token, try_parse_filter_pair,
  is_date_key, text_round, candidate_round,
}
use mailclient.Search.Query.Pieces.{
  Gap, is_colon, split_word, split_quoted, split_once-none, clean_same, clean_words, not_quote,
  any-head, no_field,
}
use mailclient.Search.Query.WellFormed.{IsTerm}
use mailclient.Search.Query.Fuel.{no_filter_round}

-- What stands behind the field's name.
unfoldable pub body : Bool → Text → Text
body true s = b'"' ∷ s ++ b'"' ∷ []
body false s = s

unfoldable pub print_term : SearchTerm → Text
unfolding body
print_term t =
    let spelled = field_name t.field ++ body t.phrase t.text in
    if t.negated then b'-' ∷ spelled else spelled

unfoldable pub print : List SearchTerm → Text
unfolding print_term
print ts = join (b' ' ∷ []) (map print_term ts)

-- The words of a phrase stand one space apart; a word is no filter, no exclusion and no other
-- field's term.
abbrev pub IsSpelled : Bool → Text → Type 0
IsSpelled true s = join (b' ' ∷ []) (split_whitespace s) ≡ s
IsSpelled false s =
    (any is_whitespace s ≡ false) × (any is_colon s ≡ false) × (starts_with (b'-' ∷ []) s ≡ false)

-- A text that does not start with white space.
abbrev pub Starts : Text → Type 0
Starts [] = ⊥
Starts (c ∷ cs) = is_whitespace c ≡ false

pub trim_Starts : (s : Text) → Starts s → trim_start s ≡ s
unfolding trim_start
trim_Starts [] h = absurd h
trim_Starts (c ∷ cs) h = rw (h) refl

pub Starts-append : (s rest : Text) → Starts s → Starts (s ++ rest)
Starts-append [] rest h = absurd h
Starts-append (c ∷ cs) rest h = h

pub Starts-length : (s : Text) → Starts s → 1 ≤ length s
Starts-length [] h = absurd h
Starts-length (c ∷ cs) h = omega arith

split_name :
    (f : SearchField) (s : Text)
    → f ≢ any_field
    → split_field (field_name f ++ s) ≡ (f, trim_start s)
unfolding split_field strip_field strip_name field_name eq_ignore_ascii_case same_text
    to_ascii_lowercase lower
split_name any_field s h = absurd (h refl)
split_name from s h = refl
split_name to s h = refl
split_name subject s h = refl

quote_first :
    (c : ℕ) (cs : Text) → any is_mark (c ∷ cs) ≡ false → starts_with (b'"' ∷ []) (c ∷ cs) ≡ false
quote_first c cs h = ground (arith, not_quote c cs h)

never : (b : Bool) (x : Option (Text × SearchFilters)) → (if b && false then x else none) ≡ none
never true x = refl
never false x = refl

module _ (is_alphanumeric : ℕ → Bool) (parse_from_str : Text → Option ℕ) (format : ℕ → Text) where
  abbrev pub IsPrintable : SearchTerm → Type 0
  IsPrintable t = IsTerm is_alphanumeric parse_from_str format t × IsSpelled t.phrase t.text

  abbrev pub IsBody : Bool → Text → Type 0
  IsBody phrase s = (any is_mark s ≡ false) × ((any is_alphanumeric s ≡ true) × IsSpelled phrase s)

  -- No term is taken for a filter.
  name_no_filter :
      (f : SearchField) (s : Text) (negated : Bool) (fs : SearchFilters)
      → f ≢ any_field
      → filter_token parse_from_str format (field_name f ++ s) negated fs ≡ none
  unfolding filter_token split_at_first split_once field_name is_whitespace is_date_key
      eq_ignore_ascii_case same_text to_ascii_lowercase lower try_parse_filter_pair
  name_no_filter any_field s negated fs h = absurd (h refl)
  name_no_filter from s negated fs h = never (is_empty (split_at_first is_whitespace s).0) _
  name_no_filter to s negated fs h = never (is_empty (split_at_first is_whitespace s).0) _
  name_no_filter subject s negated fs h = never (is_empty (split_at_first is_whitespace s).0) _

  no_filter :
      (f : SearchField) (phrase : Bool) (s : Text) (rest : Text) (negated : Bool)
      (fs : SearchFilters)
      → IsBody phrase s
      → Gap rest
      → filter_token parse_from_str format (field_name f ++ (body phrase s ++ rest)) negated fs
        ≡ none
  unfolding filter_token field_name body any
  no_filter from phrase s rest out fs h gap =
      name_no_filter from (body phrase s ++ rest) out fs (λ e. cc)
  no_filter to phrase s rest out fs h gap =
      name_no_filter to (body phrase s ++ rest) out fs (λ e. cc)
  no_filter subject phrase s rest out fs h gap =
      name_no_filter subject (body phrase s ++ rest) out fs (λ e. cc)
  no_filter any_field true s rest out fs h gap = refl
  no_filter any_field false [] rest out fs (unmarked, (letter, _)) gap = absurd cc
  no_filter any_field false (c ∷ cs) rest out fs (unmarked, (letter, (solid, colonless, _))) gap =
      rw
        (
          quote_first c cs unmarked,
          split_word (c ∷ cs) {rest = rest} solid gap,
          split_once-none (c ∷ cs) colonless,
        )
        refl

  pub body-Starts :
      (phrase : Bool) (s : Text) (rest : Text) → IsBody phrase s → Starts (body phrase s ++ rest)
  unfolding body is_whitespace any
  body-Starts true s rest h = refl
  body-Starts false [] rest (_, (letter, _)) = cc
  body-Starts false (c ∷ cs) rest (_, (_, (solid, _, _))) = any-head is_whitespace c cs solid

  split_body :
      (f : SearchField) (phrase : Bool) (s : Text) (rest : Text)
      → IsBody phrase s
      → Gap rest
      → split_field (field_name f ++ (body phrase s ++ rest)) ≡ (f, body phrase s ++ rest)
  unfolding split_field strip_field strip_name field_name body eq_ignore_ascii_case same_text
      to_ascii_lowercase lower
  split_body any_field true s rest h gap = refl
  split_body any_field false s rest (_, (_, (_, colonless, _))) gap =
      rw (split_field, no_field s {rest = rest} colonless gap) refl
  split_body from phrase s rest h gap =
      split_name from (body phrase s ++ rest) (λ e. cc)
      ∙ ap (λ r. (from, r)) (trim_Starts (body phrase s ++ rest) (body-Starts phrase s rest h))
  split_body to phrase s rest h gap =
      split_name to (body phrase s ++ rest) (λ e. cc)
      ∙ ap (λ r. (to, r)) (trim_Starts (body phrase s ++ rest) (body-Starts phrase s rest h))
  split_body subject phrase s rest h gap =
      split_name subject (body phrase s ++ rest) (λ e. cc)
      ∙ ap (λ r. (subject, r)) (trim_Starts (body phrase s ++ rest) (body-Starts phrase s rest h))

  read_body :
      (phrase : Bool) (s : Text) (rest : Text)
      → IsBody phrase s
      → Gap rest
      → text_token (body phrase s ++ rest) ≡ (s, phrase, rest)
  unfolding text_token body any
  read_body true s rest (unmarked, (letter, spelled)) gap =
      rw
        (
          append_assoc s (b'"' ∷ []) rest,
          split_quoted s rest unmarked,
          clean_words s unmarked,
          spelled,
        )
        refl
  read_body false [] rest (unmarked, (letter, _)) gap = absurd cc
  read_body false (c ∷ cs) rest (unmarked, (letter, (solid, _, _))) gap =
      rw
        (
          not_quote c cs unmarked,
          split_word (c ∷ cs) {rest = rest} solid gap,
          clean_same (c ∷ cs) unmarked,
        )
        refl

  text_round-printed :
      (f : SearchField) (phrase : Bool) (s : Text) (rest : Text) (negated : Bool)
      (fs : SearchFilters)
      → IsBody phrase s
      → Gap rest
      → text_round is_alphanumeric parse_from_str format
          (field_name f ++ (body phrase s ++ rest))
          negated
          fs
        ≡ record {
          rest = trim_start rest;
          found = some (record { field = f; text = s; phrase = phrase; negated = negated });
          filters = fs;
        }
  unfolding text_round trim_start
  text_round-printed f phrase s rest negated fs h gap =
      rw (text_round, split_body f phrase s rest h gap, read_body phrase s rest h gap, h.1.0) refl

  pub no_dash :
      (f : SearchField) (phrase : Bool) (s : Text) (rest : Text)
      → IsBody phrase s
      → starts_with (b'-' ∷ []) (field_name f ++ (body phrase s ++ rest)) ≡ false
  unfolding field_name body any
  no_dash from phrase s rest h = refl
  no_dash to phrase s rest h = refl
  no_dash subject phrase s rest h = refl
  no_dash any_field true s rest h = refl
  no_dash any_field false [] rest (_, (letter, _)) = cc
  no_dash any_field false (c ∷ cs) rest (_, (_, (_, _, dashless))) = dashless

  pub candidate_round-printed :
      (f : SearchField) (phrase : Bool) (s : Text) (rest : Text) (negated : Bool)
      (fs : SearchFilters)
      → IsBody phrase s
      → Gap rest
      → candidate_round is_alphanumeric parse_from_str format
          (field_name f ++ (body phrase s ++ rest))
          negated
          fs
        ≡ record {
          rest = trim_start rest;
          found = some (record { field = f; text = s; phrase = phrase; negated = negated });
          filters = fs;
        }
  candidate_round-printed f phrase s rest negated fs h gap =
      no_filter_round is_alphanumeric parse_from_str format _ negated fs
        (no_filter f phrase s rest negated fs h gap)
      ∙ text_round-printed f phrase s rest negated fs h gap
