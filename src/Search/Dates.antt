-- ===== src/Search/Dates.antt =====
-- The date bounds and the short filter of crates/mailcore/src/search.rs, and the plan of the
-- search field. Texts compare by code points, which is the order of their UTF-8 bytes.
use mailclient.Base.{
  ℕ, ◌-◌, Bool, true, false, not, ◌&&◌, ◌||◌, Option, none, some, [], ◌∷◌, ◌++◌, ◌==◌, ltb,
  if◌then◌else◌, is_empty, length, and_then, is_none,
}
use mailclient.Base.Text.{Text, codes, starts_with}
use mailclient.Base.Strings.{trim, same_text, to_ascii_lowercase}
use mailclient.Search.Query.{normalise_date, parse_query_full, are_empty}

-- `<` of two texts.
unfoldable pub text_lt : Text → Text → Bool
text_lt s [] = false
text_lt [] (d ∷ ds) = true
text_lt (c ∷ cs) (d ∷ ds) = let rest = text_lt cs ds in ltb c d || ((c == d) && rest)

-- `str::contains`
unfoldable pub contains_text : Text → Text → Bool
contains_text needle [] = is_empty needle
contains_text needle (c ∷ cs) = starts_with needle (c ∷ cs) || contains_text needle cs

abbrev pub unwrap_or : Option Text → Text → Text
unwrap_or none s = s
unwrap_or (some t) s = t

abbrev pub not_before : Text → Option Text → Bool
not_before raw none = true
not_before raw (some a) = not (text_lt raw a)

abbrev pub before_end : Text → Option Text → Bool
before_end raw none = true
before_end raw (some b) = text_lt raw b

unfoldable pub date_bounds_pass : Option Text → Option Text → Option Text → Bool
unfolding trim text_lt
date_bounds_pass date_raw after before =
    if is_none after && is_none before
    then true
    else (let raw = trim (unwrap_or date_raw []) in
        if is_empty raw then false else not_before raw after && before_end raw before)

module _ (parse_from_str : Text → Option ℕ) (format : ℕ → Text) where
  abbrev pub day_bound : Option Text → Option Text
  unfolding normalise_date trim
  day_bound s = and_then s (λ t. normalise_date parse_from_str format (trim t))

  unfoldable pub date_passes : Option Text → Option Text → Option Text → Bool
  unfolding day_bound date_bounds_pass
  date_passes date_raw after before = date_bounds_pass date_raw (day_bound after) (day_bound before)

  unfoldable pub date_filter_label : Option Text → Option Text → Text
  unfolding day_bound
  date_filter_label after before = elim (day_bound after) [
    | none ↦ elim (day_bound before) [ none ↦ [] | some b ↦ codes "Before " ++ b ]
    | some a ↦ elim (day_bound before) [
      | none ↦ codes "Since " ++ a
      | some b ↦ a ++ codes " – " ++ b
    ]
  ]

  abbrev pub is_one_of : Text → Text → Text → Text → Bool
  unfolding same_text
  is_one_of s a b c = same_text s a || same_text s b || same_text s c

  -- A duration of days before `today`.
  unfoldable pub date_preset_range_at : Text → ℕ → Option Text × Option Text
  unfolding same_text trim to_ascii_lowercase is_one_of
  date_preset_range_at preset today =
      let name = to_ascii_lowercase (trim preset) in
      if same_text name (codes "today")
      then (some (format today), none)
      else if is_one_of name (codes "week") (codes "last7") (codes "7days")
      then (some (format (today - 6)), none)
      else if is_one_of name (codes "month") (codes "last30") (codes "30days")
      then (some (format (today - 29)), none)
      else if is_one_of name (codes "older_month") (codes "older30") (codes "older")
      then (none, some (format (today - 29)))
      else (none, none)

pub data SearchMode : Type 0 where
  off filter index : SearchMode

pub record SearchPlan : Type 0 where
  pub mode : SearchMode
  pub query : Text
  pub hit_limit : ℕ
  pub debounce_ms : ℕ

abbrev pub index_min_chars : ℕ
index_min_chars = 3

abbrev pub max_hits : ℕ
max_hits = 50

abbrev pub server_debounce_ms : ℕ
server_debounce_ms = 800

module _ (is_alphanumeric : ℕ → Bool) (parse_from_str : Text → Option ℕ) (format : ℕ → Text) where
  unfoldable pub plan : Text → SearchPlan
  unfolding trim parse_query_full are_empty
  plan raw =
      let query = trim raw in
      let parsed = parse_query_full is_alphanumeric parse_from_str format query in
      record {
        mode =
            (if is_empty query
              then off
              else if not (are_empty parsed.filters)
              then index
              else if ltb (length query) index_min_chars
              then filter
              else index);
        query = query;
        hit_limit = max_hits;
        debounce_ms = server_debounce_ms;
      }
