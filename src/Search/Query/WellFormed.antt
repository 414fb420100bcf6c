-- ===== src/Search/Query/WellFormed.antt =====
-- What the parser's terms and filters hold, whatever was typed.
use mailclient.Base.{
  ℕ, zero, suc, String, ◌≡◌, refl, Bool, true, false, length, not, ◌&&◌, ◌||◌, Option, none, some,
  List, [], ◌∷◌, ◌==◌, if◌then◌else◌, map, arith, Bool-cases, Option-cases, and_then, is_empty, inl,
  inr, All,
}
use mailclient.Base.Text.{Text, codes, starts_with}
use mailclient.Base.Strings.{
  any-append, any, join, split_whitespace, split_at_first, split_once, trim_start, is_whitespace,
  is_ascii_digit, all, eq_ignore_ascii_case,
}
use mailclient.Base.Lists.{drop}
use mailclient.Base.Order.{filter}
use mailclient.Search.Query.{
  SearchTerm, SearchFilters, ParsedQuery, Round, is_mark, clean, text_token, split_field,
  text_round, candidate_round, round, push, parse_loop, parse_query_full, no_filters, filter_token,
  try_parse_filter_pair, normalise_date, is_date_key,
}
use mailclient.Search.Query.Fuel.{no_filter_round, filter_round}

any-clean : (w : Text) → any is_mark (clean w) ≡ false
unfolding any clean filter
any-clean [] = refl
any-clean (c ∷ cs) = ground (arith, any-clean cs)

any-join-clean : (ws : List Text) → any is_mark (join (b' ' ∷ []) (map clean ws)) ≡ false
unfolding join any
any-join-clean [] = refl
any-join-clean (w ∷ []) = any-clean w
any-join-clean (w ∷ v ∷ ws) =
    rw
      (
        any-append is_mark (clean w) (b' ' ∷ join (b' ' ∷ []) (map clean (v ∷ ws))),
        any-clean w,
        any-join-clean (v ∷ ws),
      )
      refl

any-text_token : (s : Text) → any is_mark (text_token s).0 ≡ false
unfolding text_token any
any-text_token [] = refl
any-text_token (c ∷ cs) = elim (Bool-cases (c == b'"')) [
  | inl quote ↦
      rw (quote) (any-join-clean (split_whitespace (split_at_first (λ (c : ℕ). c == b'"') cs).0))
  | inr word ↦ rw (word) (any-clean (split_at_first is_whitespace (c ∷ cs)).0)
]

-- What is there has the property.
pub data Found {A : Type 0} (P : A → Type 0) : Option A → Type 0 where
  absent_there : Found P none
  found : {a : A} → P a → Found P (some a)

pub found_holds : {A : Type 0} {P : A → Type 0} {a : A} → Found P (some a) → P a
found_holds (found h) = h

then-Found :
    {A B : Type 0} {P : A → Type 0} {Q : B → Type 0} (o : Option A) (g : A → B)
    → Found P o
    → ((a : A) → P a → Q (g a))
    → Found Q (and_then o (λ a. some (g a)))
then-Found none g h f = absent_there
then-Found (some a) g h f = found (f a (found_holds h))

if-Found :
    {A : Type 0} {P : A → Type 0} (b : Bool) {x y : Option A}
    → Found P x
    → Found P y
    → Found P (if b then x else y)
if-Found true hx hy = hx
if-Found false hx hy = hy

module _ (is_alphanumeric : ℕ → Bool) (parse_from_str : Text → Option ℕ) (format : ℕ → Text) where
  -- A term as `SearchTerm` documents its text: no `"` and no `*`, and a letter or a digit.
  abbrev pub IsTerm : SearchTerm → Type 0
  IsTerm t = (any is_mark t.text ≡ false) × (any is_alphanumeric t.text ≡ true)

  kept-IsTerm :
      (t : SearchTerm)
      → any is_mark t.text ≡ false
      → Found IsTerm (if any is_alphanumeric t.text then some t else none)
  kept-IsTerm t h = elim (Bool-cases (any is_alphanumeric t.text)) [
    | inl letter ↦ rw (letter) (found (h, letter))
    | inr blank ↦ rw (blank) absent_there
  ]

  text_round-IsTerm :
      (s : Text) (negated : Bool) (f : SearchFilters)
      → Found IsTerm (text_round is_alphanumeric parse_from_str format s negated f).found
  unfolding text_round
  text_round-IsTerm s negated f =
      (let token = text_token (split_field s).1 in
        kept-IsTerm
          (record {
            field = (split_field s).0;
            text = token.0;
            phrase = token.1;
            negated = negated;
          })
          (any-text_token (split_field s).1))

  -- The days of the filters as chrono prints them.
  abbrev pub IsDay : Option Text → Type 0
  IsDay = Found (λ (s : Text). (d : ℕ) × (s ≡ format d))

  abbrev pub HasDays : SearchFilters → Type 0
  HasDays f = IsDay f.after × IsDay f.before

  abbrev IsRound : Round → Type 0
  IsRound r = Found IsTerm r.found × HasDays r.filters

  normalise_date-IsDay : (s : Text) → IsDay (normalise_date parse_from_str format s)
  unfolding normalise_date
  normalise_date-IsDay s =
      let (year, _) = split_at_first (λ (c : ℕ). c == b'-') s in
      if-Found (not (length year == 4) || not (all is_ascii_digit year)) absent_there
        (elim (Option-cases (parse_from_str s)) [
          | inl bad ↦ rw (bad) absent_there
          | inr (d, e) ↦ rw (e) (found (d, refl))
        ])

  dated-HasDays :
      (s : Text) (set : Text → SearchFilters)
      → ((day : Text) → IsDay (some day) → HasDays (set day))
      → Found HasDays
          (elim (normalise_date parse_from_str format s) [ none ↦ none | some d ↦ some (set d) ])
  dated-HasDays s set days = elim (Option-cases (normalise_date parse_from_str format s)) [
    | inl bad ↦ rw (bad) absent_there
    | inr (d, e) ↦ rw (e) (found (days d (rw (e) at (normalise_date-IsDay s))))
  ]

  try-HasDays :
      (key val : Text) (negated : Bool) (f : SearchFilters)
      → HasDays f
      → Found HasDays (try_parse_filter_pair parse_from_str format key val negated f)
  unfolding try_parse_filter_pair
  try-HasDays key val negated f h =
      let key_is = λ (w : String). eq_ignore_ascii_case key (codes w) in
      let val_is = λ (w : String). eq_ignore_ascii_case val (codes w) in
      if-Found (key_is "is")
        (if-Found (val_is "unread") (found h) (
          if-Found (val_is "read") (found h) (
            if-Found (val_is "starred" || val_is "flagged") (found h)
              (if-Found (val_is "unstarred" || val_is "unflagged") (found h) absent_there))))
        (if-Found (key_is "has")
          (if-Found (val_is "attachment" || val_is "attachments") (found h) absent_there)
          (if-Found (key_is "after" || key_is "since")
            (dated-HasDays val (λ d. record f { after = some d }) (λ d is_day. (is_day, h.1)))
            (if-Found (key_is "before")
              (dated-HasDays val (λ d. record f { before = some d }) (λ d is_day. (h.0, is_day)))
              absent_there)))

  filter_token-HasDays :
      (s : Text) (negated : Bool) (f : SearchFilters)
      → HasDays f
      → Found
          (λ (p : Text × SearchFilters). HasDays p.1)
          (filter_token parse_from_str format s negated f)
  unfolding filter_token
  filter_token-HasDays s negated f h =
      let word = (split_at_first is_whitespace s).0 in
      let after = (split_at_first is_whitespace s).1 in
      let next = split_at_first is_whitespace (trim_start after) in
      if-Found (starts_with (b'"' ∷ []) s) absent_there
        (elim (Option-cases (split_once b':' word)) [
          | inl gone ↦ rw (gone) absent_there
          | inr ((k, v), e) ↦ rw (e) (
              if-Found (is_empty v && is_date_key k)
                (if-Found (is_empty next.0) absent_there (
                  then-Found (try_parse_filter_pair parse_from_str format k next.0 negated f)
                    (λ f'. (trim_start next.1, f')) (try-HasDays k next.0 negated f h)
                    (λ f' h'. h')))
                (then-Found (try_parse_filter_pair parse_from_str format k v negated f)
                  (λ f'. (trim_start after, f')) (try-HasDays k v negated f h) (λ f' h'. h')))
        ])

  candidate_round-IsRound :
      (s : Text) (negated : Bool) (f : SearchFilters)
      → HasDays f
      → IsRound (candidate_round is_alphanumeric parse_from_str format s negated f)
  unfolding text_round
  candidate_round-IsRound s negated f h =
      elim (Option-cases (filter_token parse_from_str format s negated f)) [
        | inl gone ↦
            rw (no_filter_round is_alphanumeric parse_from_str format s negated f gone)
              (text_round-IsTerm s negated f, h)
        | inr ((tail, f'), e) ↦
            rw (filter_round is_alphanumeric parse_from_str format s negated f tail f' e)
              (absent_there, found_holds (rw (e) at (filter_token-HasDays s negated f h)))
      ]

  round-IsRound :
      (s : Text) (f : SearchFilters)
      → HasDays f
      → IsRound (round is_alphanumeric parse_from_str format s f)
  unfolding round
  round-IsRound s f h =
      let negated = starts_with (b'-' ∷ []) s in
      candidate_round-IsRound (if negated then drop 1 s else s) negated f h

  abbrev pub IsQuery : ParsedQuery → Type 0
  IsQuery q = All IsTerm q.terms × HasDays q.filters

  push-IsQuery :
      (t : Option SearchTerm) (q : ParsedQuery) → Found IsTerm t → IsQuery q → IsQuery (push t q)
  push-IsQuery none q h (ts, days) = (ts, days)
  push-IsQuery (some t) q h (ts, days) = ((found_holds h, ts), days)

  parse_loop-IsQuery :
      (n : ℕ) (s : Text) (f : SearchFilters)
      → HasDays f
      → IsQuery (parse_loop is_alphanumeric parse_from_str format n s f)
  unfolding parse_loop
  parse_loop-IsQuery zero [] f h = (tt, h)
  parse_loop-IsQuery (suc n) [] f h = (tt, h)
  parse_loop-IsQuery zero (c ∷ cs) f h = (tt, h)
  parse_loop-IsQuery (suc n) (c ∷ cs) f h =
      let r = round is_alphanumeric parse_from_str format (c ∷ cs) f in
      let (term, days) = round-IsRound (c ∷ cs) f h in
      push-IsQuery r.found _ term (parse_loop-IsQuery n r.rest r.filters days)

  -- Whatever is typed, the text of each term holds a letter or a digit, and neither `"` nor
  -- `*`; the bounds of the date filters are days as chrono prints them.
  pub parse_query_full-IsQuery :
      (raw : Text) → IsQuery (parse_query_full is_alphanumeric parse_from_str format raw)
  unfolding parse_query_full
  parse_query_full-IsQuery raw =
      parse_loop-IsQuery (length raw) (trim_start raw) no_filters (absent_there, absent_there)
