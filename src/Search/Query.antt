-- ===== src/Search/Query.antt =====
-- The search query language of crates/mailcore/src/search.rs. Parameters: `char::is_alphanumeric`
-- of the Unicode tables, and chrono's reading and printing of a `%Y-%m-%d` day, a day being its
-- number. A slice by bytes that matches an ASCII text is one by characters here.
pub mod Fuel
pub mod WellFormed
pub mod Pieces
pub mod Spelled
pub mod RoundTrip
use mailclient.Base.{
  ℕ, zero, suc, Bool, true, false, not, ◌&&◌, ◌||◌, Option, none, some, List, [], ◌∷◌, ◌++◌, ◌==◌,
  if◌then◌else◌, is_empty, length, map, and_then, is_none,
}
use mailclient.Base.Lists.{drop, take}
use mailclient.Base.Order.{filter}
use mailclient.Base.Text.{Text, codes, starts_with}
use mailclient.Base.Strings.{
  is_whitespace, is_ascii_digit, eq_ignore_ascii_case, any, all, trim_start, split_at_first,
  split_once, split_whitespace, join,
}

pub data SearchField : Type 0 where
  any_field from to subject : SearchField

pub record SearchTerm : Type 0 where
  pub field : SearchField
  pub text : Text
  pub phrase : Bool
  pub negated : Bool

pub record SearchFilters : Type 0 where
  pub unread : Option Bool
  pub starred : Option Bool
  pub has_attachments : Option Bool
  pub after : Option Text
  pub before : Option Text

pub record ParsedQuery : Type 0 where
  pub terms : List SearchTerm
  pub filters : SearchFilters

abbrev pub no_filters : SearchFilters
no_filters = record {
  unread = none;
  starred = none;
  has_attachments = none;
  after = none;
  before = none;
}

-- `SearchFilters::is_empty`
unfoldable pub are_empty : SearchFilters → Bool
are_empty f =
    is_none f.unread
    && is_none f.starred
    && is_none f.has_attachments
    && is_none f.after
    && is_none f.before

-- The name that `FIELDS` gives a field, none for `Any`.
unfoldable pub field_name : SearchField → Text
field_name any_field = []
field_name from = codes "from:"
field_name to = codes "to:"
field_name subject = codes "subject:"

unfoldable pub is_date_key : Text → Bool
unfolding eq_ignore_ascii_case
is_date_key key =
    eq_ignore_ascii_case key (codes "after")
    || eq_ignore_ascii_case key (codes "since")
    || eq_ignore_ascii_case key (codes "before")

-- The rest behind a name in any case.
unfoldable pub strip_name : Text → Text → Option Text
unfolding eq_ignore_ascii_case
strip_name name s =
    if eq_ignore_ascii_case (take (length name) s) name then some (drop (length name) s) else none

unfoldable pub strip_field : Text → Option (SearchField × Text)
unfolding strip_name field_name
strip_field s = elim (strip_name (field_name from) s) [
  | some r ↦ some (from, r)
  | none ↦ elim (strip_name (field_name to) s) [
    | some r ↦ some (to, r)
    | none ↦ elim (strip_name (field_name subject) s) [ some r ↦ some (subject, r) | none ↦ none ]
  ]
]

abbrev pub is_mark : ℕ → Bool
is_mark c = (c == b'"') || (c == b'*')

unfoldable pub clean : Text → Text
unfolding filter
clean word = filter (λ c. not (is_mark c)) word

module _ (parse_from_str : Text → Option ℕ) (format : ℕ → Text) where
  unfoldable pub normalise_date : Text → Option Text
  unfolding split_at_first all is_ascii_digit
  normalise_date s =
      let (year, _) = split_at_first (λ c. c == b'-') s in
      if not (length year == 4) || not (all is_ascii_digit year)
      then none
      else elim (parse_from_str s) [ none ↦ none | some d ↦ some (format d) ]

  -- `none` where the source returns false and leaves the filters as they are.
  unfoldable pub try_parse_filter_pair : Text → Text → Bool → SearchFilters → Option SearchFilters
  unfolding eq_ignore_ascii_case normalise_date
  try_parse_filter_pair key val negated f =
      if eq_ignore_ascii_case key (codes "is")
      then if eq_ignore_ascii_case val (codes "unread")
        then some (record f { unread = some (not negated) })
        else if eq_ignore_ascii_case val (codes "read")
        then some (record f { unread = some negated })
        else if eq_ignore_ascii_case val (codes "starred")
            || eq_ignore_ascii_case val (codes "flagged")
        then some (record f { starred = some (not negated) })
        else if eq_ignore_ascii_case val (codes "unstarred")
            || eq_ignore_ascii_case val (codes "unflagged")
        then some (record f { starred = some negated })
        else none
      else if eq_ignore_ascii_case key (codes "has")
      then if eq_ignore_ascii_case val (codes "attachment")
          || eq_ignore_ascii_case val (codes "attachments")
        then some (record f { has_attachments = some (not negated) })
        else none
      else if eq_ignore_ascii_case key (codes "after") || eq_ignore_ascii_case key (codes "since")
      then elim (normalise_date val) [ none ↦ none | some d ↦ some (record f { after = some d }) ]
      else if eq_ignore_ascii_case key (codes "before")
      then elim (normalise_date val) [ none ↦ none | some d ↦ some (record f { before = some d }) ]
      else none

  -- The filter that a token without its dash says, and the text behind it. A date key with its
  -- day behind a space takes the next word.
  unfoldable pub filter_token : Text → Bool → SearchFilters → Option (Text × SearchFilters)
  unfolding is_whitespace split_at_first split_once is_date_key trim_start try_parse_filter_pair
  filter_token candidate negated f =
      if starts_with (b'"' ∷ []) candidate
      then none
      else (let (word, tail) = split_at_first is_whitespace candidate in
          elim (split_once b':' word) [
            | none ↦ none
            | some (k, v) ↦
                (if is_empty v && is_date_key k
                  then (let (next_word, next_tail) =
                        split_at_first is_whitespace (trim_start tail) in
                      if is_empty next_word
                      then none
                      else and_then (try_parse_filter_pair k next_word negated f)
                          (λ f'. some (trim_start next_tail, f')))
                  else and_then (try_parse_filter_pair k v negated f)
                      (λ f'. some (trim_start tail, f')))
          ])

-- A phrase, to its closing quote or the end, or a word: its text and what stands behind it.
unfoldable pub text_token : Text → Text × Bool × Text
unfolding is_whitespace split_at_first split_whitespace clean join
text_token [] = ([], false, [])
text_token (c ∷ cs) =
    if c == b'"'
    then (let (quoted, tail) = split_at_first (λ c. c == b'"') cs in
        (join (b' ' ∷ []) (map clean (split_whitespace quoted)), true, drop 1 tail))
    else (let (word, tail) = split_at_first is_whitespace (c ∷ cs) in (clean word, false, tail))

unfoldable pub split_field : Text → SearchField × Text
unfolding strip_field trim_start
split_field s = elim (strip_field s) [ none ↦ (any_field, s) | some (f, r) ↦ (f, trim_start r) ]

unfoldable pub any_positive : List SearchTerm → Bool
any_positive [] = false
any_positive (t ∷ ts) = not t.negated || any_positive ts

abbrev pub push : Option SearchTerm → ParsedQuery → ParsedQuery
push none q = q
push (some t) q = record { terms = t ∷ q.terms; filters = q.filters }

-- One round of the loop: what it leaves to read, the term it found and the filters.
pub record Round : Type 0 where
  pub rest : Text
  pub found : Option SearchTerm
  pub filters : SearchFilters

module _ (is_alphanumeric : ℕ → Bool) (parse_from_str : Text → Option ℕ) (format : ℕ → Text) where
  unfoldable pub text_round : Text → Bool → SearchFilters → Round
  unfolding text_token split_field trim_start any
  text_round candidate negated f =
      let (field, s) = split_field candidate in
      let (text, phrase, after) = text_token s in
      record {
        rest = trim_start after;
        found =
            (if any is_alphanumeric text
              then some (record { field = field; text = text; phrase = phrase; negated = negated })
              else none);
        filters = f;
      }

  unfoldable pub candidate_round : Text → Bool → SearchFilters → Round
  unfolding filter_token text_round
  candidate_round candidate negated f =
      elim (filter_token parse_from_str format candidate negated f) [
        | some (tail, f') ↦ record { rest = tail; found = none; filters = f' }
        | none ↦ text_round candidate negated f
      ]

  unfoldable pub round : Text → SearchFilters → Round
  unfolding candidate_round
  round rest f =
      let negated = starts_with (b'-' ∷ []) rest in
      candidate_round (if negated then drop 1 rest else rest) negated f

  unfoldable pub parse_loop : ℕ → Text → SearchFilters → ParsedQuery
  unfolding round
  parse_loop n [] f = record { terms = []; filters = f }
  parse_loop zero (c ∷ cs) f = record { terms = []; filters = f }
  parse_loop (suc n) (c ∷ cs) f =
      let r = round (c ∷ cs) f in push r.found (parse_loop n r.rest r.filters)

  -- Each round takes a character, so the length of the text is fuel enough.
  unfoldable pub parse_query_full : Text → ParsedQuery
  unfolding parse_loop trim_start
  parse_query_full raw = parse_loop (length raw) (trim_start raw) no_filters

  unfoldable pub parse_query : Text → List SearchTerm
  unfolding parse_query_full
  parse_query raw = (parse_query_full raw).terms

  unfoldable pub is_searchable : Text → Bool
  unfolding parse_query_full any_positive are_empty
  is_searchable raw =
      let q = parse_query_full raw in any_positive q.terms || not (are_empty q.filters)
