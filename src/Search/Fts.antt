-- ===== src/Search/Fts.antt =====
-- `fts_query`, `fts_exclusions` and `fts_term` of crates/mailcore/src/search.rs: the MATCH
-- expressions that a query becomes.
pub mod Literals
use mailclient.Base.{
  ℕ, Bool, true, false, not, Option, none, some, List, [], ◌∷◌, ◌++◌, ◌==◌, if◌then◌else◌, is_empty,
  map,
}
use mailclient.Base.Text.{Text, codes}
use mailclient.Base.Strings.{join}
use mailclient.Base.Table.{select_where}
use mailclient.Search.Query.{SearchField, any_field, from, to, subject, SearchTerm, parse_query}

unfoldable pub columns : SearchField → Text
columns any_field = []
columns from = codes "{from_addr from_name} : "
columns to = codes "{to_addrs cc_addrs bcc_addrs} : "
columns subject = codes "{subject} : "

-- `text.replace('"', "\"\"")`
unfoldable pub double_quotes : Text → Text
double_quotes [] = []
double_quotes (c ∷ cs) =
    let rest = double_quotes cs in if c == b'"' then b'"' ∷ b'"' ∷ rest else c ∷ rest

unfoldable pub prefix : Bool → Text
prefix phrase = if phrase then [] else b'*' ∷ []

unfoldable pub fts_term : SearchTerm → Text
unfolding columns double_quotes prefix
fts_term t = columns t.field ++ (b'"' ∷ double_quotes t.text ++ b'"' ∷ prefix t.phrase)

abbrev pub is_positive : SearchTerm → Bool
is_positive t = not t.negated

abbrev pub is_negated : SearchTerm → Bool
is_negated t = t.negated

-- The loop that wraps the query for each excluded term.
unfoldable pub exclude : Text → List SearchTerm → Text
unfolding fts_term
exclude query [] = query
exclude query (t ∷ ts) = exclude ((b'(' ∷ query) ++ (codes ") NOT " ++ fts_term t)) ts

unfoldable pub fts_of_terms : List SearchTerm → Option Text
unfolding exclude join select_where
fts_of_terms terms =
    let query = join (b' ' ∷ []) (map fts_term (select_where is_positive terms)) in
    if is_empty query then none else some (exclude query (select_where is_negated terms))

unfoldable pub exclusions_of_terms : List SearchTerm → Option Text
unfolding join fts_term select_where
exclusions_of_terms terms =
    let query = join (codes " OR ") (map fts_term (select_where is_negated terms)) in
    if is_empty query then none else some query

module _ (is_alphanumeric : ℕ → Bool) (parse_from_str : Text → Option ℕ) (format : ℕ → Text) where
  unfoldable pub fts_query : Text → Option Text
  unfolding parse_query fts_of_terms
  fts_query raw = fts_of_terms (parse_query is_alphanumeric parse_from_str format raw)

  unfoldable pub fts_exclusions : Text → Option Text
  unfolding parse_query exclusions_of_terms
  fts_exclusions raw = exclusions_of_terms (parse_query is_alphanumeric parse_from_str format raw)
