-- ===== src/Search/Tests.antt =====
-- Tests of the search, and its theorems at inputs where their hypotheses hold. Letters and digits
-- are those of ASCII, and one day is known, in two spellings.
use mailclient.Base.{
  ℕ, ◌≡◌, refl, Bool, true, false, ◌&&◌, ◌||◌, Option, none, some, List, [], ◌∷◌, ◌++◌, ◌==◌,
  if◌then◌else◌, is_empty,
}
use mailclient.Base.Table.{count_where, select_where}
use mailclient.Base.Text.{Text, codes, is_ascii_alphanumeric}
use mailclient.Base.Strings.{
  any, is_whitespace, same_text, join, split_whitespace, attach, starts_word, is_ascii_digit,
}
use mailclient.Search.Query.{
  SearchTerm, any_field, from, parse_query_full, no_filters, any_positive,
}
use mailclient.Search.Query.WellFormed.{IsQuery, parse_query_full-IsQuery}
use mailclient.Search.Query.RoundTrip.{parse_query_full-print}
use mailclient.Search.Query.Spelled.{print}
use mailclient.Search.Fts.{fts_of_terms, fts_query, is_positive, is_negated}
use mailclient.Search.Fts.Literals.{literals, syntax, outside, texts, blank, fts_of_terms-literals}
use mailclient.Search.Dates.{text_lt}
use mailclient.Search.ListFilter.{
  ListFilter, CompactMessage, keep_in_folder, passes, shown, date_range_check,
}
use mailclient.Base.Sorted.{IsSorted}
use mailclient.Search.ListFilter.Keep.{wanted, keep_in_folder-passes}
use mailclient.Search.ListFilter.Range.{Canonical, iso, bounded, date_range_check-same}

abbrev iso_day : Text
iso_day = codes "2026-09-01"

abbrev read_day : Text → Option ℕ
unfolding same_text
read_day s = if same_text s iso_day || same_text s (codes "2026-9-1") then some 1 else none

abbrev print_day : ℕ → Text
print_day d = iso_day

mixed_query :
    fts_query is_ascii_alphanumeric read_day print_day (codes "inv* is:unread -from:anna \"OR x\"")
    ≡ some (codes "(\"inv\"* \"OR x\") NOT {from_addr from_name} : \"anna\"*")
unfolding fts_query
mixed_query = refl

abbrev typed : List SearchTerm
typed =
    record { field = any_field; text = codes "invoice"; phrase = false; negated = false }
    ∷ record { field = from; text = codes "anna b"; phrase = true; negated = true }
    ∷ []

parse_query_full-print_example :
    parse_query_full is_ascii_alphanumeric read_day print_day (print typed)
    ≡ record { terms = typed; filters = no_filters }
unfolding any is_whitespace split_whitespace join attach starts_word
parse_query_full-print_example =
    parse_query_full-print is_ascii_alphanumeric read_day print_day typed
      (((refl, refl), (refl, refl, refl)), (((refl, refl), refl), tt))

parse_query_full-IsQuery_example :
    IsQuery is_ascii_alphanumeric read_day print_day
      (parse_query_full is_ascii_alphanumeric read_day print_day (codes "a*b after:2026-9-1 --"))
parse_query_full-IsQuery_example =
    parse_query_full-IsQuery is_ascii_alphanumeric read_day print_day
      (codes "a*b after:2026-9-1 --")

fts_of_terms-literals_example :
    (q : Text) × (q' : Text) × (fts_of_terms typed ≡ some q)
    × (fts_of_terms (
          blank
            (record { field = any_field; text = codes "invoice"; phrase = false; negated = false })
          ∷ blank (record { field = from; text = codes "anna b"; phrase = true; negated = true })
          ∷ [])
        ≡ some q')
    × (literals outside q
        ≡ texts (select_where is_positive typed) ++ texts (select_where is_negated typed))
    × (syntax outside q ≡ syntax outside q')
unfolding any_positive
fts_of_terms-literals_example = fts_of_terms-literals typed refl

abbrev unfiltered : ListFilter
unfiltered = record {
  unread = true;
  starred = false;
  attachments = false;
  after = codes "2026-9-1";
  before = [];
  text = [];
}

abbrev mail : ℕ → Bool → CompactMessage
mail uid is_read = record {
  uid = uid;
  subject = none;
  from_addr = none;
  from_name = none;
  date = some (codes "2026-09-02T10:00:00Z");
  snippet = none;
  is_read = is_read;
  is_starred = false;
  has_attachments = false;
}

abbrev same : Text → Text
same s = s

keeps_unread :
    keep_in_folder same read_day print_day false
      (mail 9 false ∷ mail 3 true ∷ mail 4 false ∷ [])
      unfiltered
    ≡ 4 ∷ 9 ∷ []
unfolding keep_in_folder read_day
keeps_unread = refl

keep_in_folder-passes_example :
    (let ms = mail 9 false ∷ mail 3 true ∷ mail 4 false ∷ [] in
      let uids = keep_in_folder same read_day print_day false ms unfiltered in
      IsSorted uids
      × (count_where (λ a. a == 9) uids
          ≡ count_where
              (λ (m : CompactMessage).
                (m.uid == 9) && wanted same read_day print_day false unfiltered m)
              ms))
keep_in_folder-passes_example =
    keep_in_folder-passes same read_day print_day false
      (mail 9 false ∷ mail 3 true ∷ mail 4 false ∷ []) unfiltered 9

known_day : {d : ℕ} (b : Bool) → (if b then some 1 else none) ≡ some d → some 1 ≡ some d
known_day true e = e
known_day false e = cc

iso_day-Canonical : Canonical read_day print_day
unfolding read_day same_text is_ascii_digit
iso_day-Canonical s d year e = (
  iso b'2' b'0' b'2' b'6' b'0' b'9' b'0' b'1' refl refl refl refl refl refl refl refl,
  known_day (same_text s iso_day || same_text s (codes "2026-9-1")) e,
)

date_range_check-same_example :
    (let r = date_range_check read_day print_day (codes " 2026-9-1") [] in
      (passes same read_day print_day
          (bounded unfiltered r.after r.before)
          (shown (mail 9 false) false)
        ≡ passes same read_day print_day
            (bounded unfiltered (codes " 2026-9-1") [])
            (shown (mail 9 false) false))
      × ((is_empty r.after || is_empty r.before || text_lt r.after r.before) ≡ true))
unfolding date_range_check read_day
date_range_check-same_example =
    date_range_check-same read_day print_day iso_day-Canonical same (codes " 2026-9-1") []
      unfiltered (shown (mail 9 false) false) refl
