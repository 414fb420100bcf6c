-- ===== src/Content/Lines.antt =====
-- crates/mailcore/src/content_line.rs: the content lines of iCalendar and vCard. A scan with a look
-- at the next character is a recursion with a flag for what stands before.
pub mod Escapes
pub mod Folding
pub mod RoundTrip
use mailclient.Base.{
  ℕ, Bool, true, false, not, ◌&&◌, ◌||◌, Option, none, some, List, [], ◌∷◌, ◌++◌, ◌==◌,
  if◌then◌else◌, is_empty, map, and_then,
}
use mailclient.Base.Table.{select_where, find_where}
use mailclient.Base.Text.{Text, codes, starts_with}
use mailclient.Base.Strings.{trim, to_ascii_uppercase, split_once, same_text, attach}

abbrev pub blank_ahead : Text → Bool
blank_ahead s = starts_with (b' ' ∷ []) s || starts_with (b'\t' ∷ []) s

-- With the flag, the first character is the blank of a folded line. A carriage return before a
-- newline goes with it.
unfoldable pub unfold_from : Bool → Text → Text
unfold_from folded [] = []
unfold_from true (c ∷ cs) = unfold_from false cs
unfold_from false (c ∷ cs) =
    let rest = unfold_from false cs in
    let continued = unfold_from true cs in
    if (c == b'\r') && starts_with (b'\n' ∷ []) cs
    then rest
    else if c == b'\n'
    then if blank_ahead cs then continued else b'\n' ∷ rest
    else c ∷ rest

unfoldable pub unfold_lines : Text → Text
unfolding unfold_from
unfold_lines input = unfold_from false input

abbrev pub is_n : ℕ → Bool
is_n c = (c == b'n') || (c == b'N')

-- With the flag, a backslash stands before.
unfoldable pub unescape_from : Bool → Text → Text
unescape_from true [] = b'\\' ∷ []
unescape_from false [] = []
unescape_from true (c ∷ cs) =
    let rest = unescape_from false cs in if is_n c then b'\n' ∷ rest else c ∷ rest
unescape_from false (c ∷ cs) =
    let rest = unescape_from false cs in
    let escaped = unescape_from true cs in if c == b'\\' then escaped else c ∷ rest

unfoldable pub unescape_text : Text → Text
unfolding unescape_from
unescape_text s = unescape_from false s

-- With the flag, a caret stands before.
unfoldable pub caret_from : Bool → Text → Text
caret_from true [] = b'^' ∷ []
caret_from false [] = []
caret_from true (c ∷ cs) =
    let rest = caret_from false cs in
    if is_n c
    then b'\n' ∷ rest
    else if c == b'\''
    then b'"' ∷ rest
    else if c == b'^'
    then b'^' ∷ rest
    else b'^' ∷ c ∷ rest
caret_from false (c ∷ cs) =
    let rest = caret_from false cs in
    let escaped = caret_from true cs in if c == b'^' then escaped else c ∷ rest

-- `strip_suffix('"')`
unfoldable pub strip_quote_end : Text → Option Text
strip_quote_end [] = none
strip_quote_end (c ∷ cs) =
    let rest = strip_quote_end cs in
    if (c == b'"') && is_empty cs
    then some []
    else elim rest [ none ↦ none | some s ↦ some (c ∷ s) ]

unfoldable pub strip_quotes : Text → Option Text
unfolding strip_quote_end
strip_quotes [] = none
strip_quotes (c ∷ cs) = if c == b'"' then strip_quote_end cs else none

abbrev pub within : Text → Option Text → Text
unfolding caret_from
within t none = caret_from false t
within t (some s) = caret_from false s

unfoldable pub param_value : Text → Text
unfolding trim strip_quotes within
param_value raw = let t = trim raw in within t (strip_quotes t)

pub record ContentLine : Type 0 where
  pub name : Text
  pub params : List (Text × Text)
  pub value : Text

unfoldable pub param : ContentLine → Text → Option Text
unfolding find_where same_text
param line name = elim (find_where (λ (p : Text × Text). same_text p.0 name) line.params) [
  | none ↦ none
  | some (n, v) ↦ some v
]

abbrev pub segments : List Text × Text → List Text
segments (segs, value) = segs

abbrev pub before : ℕ → Option (List Text × Text) → Option (List Text × Text)
unfolding attach
before c none = none
before c (some (segs, value)) = some (attach c segs, value)

abbrev pub new_segment : Option (List Text × Text) → Option (List Text × Text)
new_segment none = none
new_segment (some (segs, value)) = some ([] ∷ segs, value)

-- The segments up to the colon, and the value behind it; none without a colon. The flag says that
-- the scan stands within quotes.
unfoldable pub split_line : Bool → Text → Option (List Text × Text)
unfolding before
split_line in_quotes [] = none
split_line in_quotes (c ∷ cs) =
    let rest = split_line in_quotes cs in
    let toggled = split_line (not in_quotes) cs in
    if c == b'"'
    then before c toggled
    else if (c == b';') && not in_quotes
    then new_segment rest
    else if (c == b':') && not in_quotes
    then some ([] ∷ [], cs)
    else before c rest

abbrev pub is_written : Text → Bool
unfolding trim
is_written p = not (is_empty (trim p))

unfoldable pub read_param : Text → Text × Text
unfolding trim to_ascii_uppercase split_once param_value
read_param p = elim (split_once b'=' p) [
  | some (n, v) ↦ (to_ascii_uppercase (trim n), param_value v)
  | none ↦ (to_ascii_uppercase (trim p), [])
]

unfoldable pub line_of : List Text → Text → Option ContentLine
unfolding trim to_ascii_uppercase select_where read_param is_written
line_of [] value = none
line_of (first ∷ rest) value =
    let name = to_ascii_uppercase (trim first) in
    if is_empty name
    then none
    else some (record {
      name = name;
      params = map read_param (select_where is_written rest);
      value = value;
    })

unfoldable pub parse_content_line : Text → Option ContentLine
unfolding split_line line_of
parse_content_line line = and_then (split_line false line) (λ (segs, value). line_of segs value)
