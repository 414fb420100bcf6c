-- ===== src/Content/Lines/RoundTrip.antt =====
-- A content line that a writer of RFC 5545 and RFC 6868 prints is read as it was.
use mailclient.Base.{
  ℕ, ◌≡◌, refl, ap, ◌∙◌, Bool, true, false, ◌&&◌, ◌||◌, Option, some, List, [], ◌∷◌, ◌++◌, ◌==◌,
  is_empty, map, arith, All, append_assoc, append-nil, or_left, or_right, and_left, and_right,
}
use mailclient.Base.Table.{select_where}
use mailclient.Base.Text.{Text, in_range}
use mailclient.Base.Strings.{
  any, all, attach, trim, trim_start, trim_end, is_whitespace, to_ascii_uppercase, upper,
  split_once,
}
use mailclient.Content.Lines.{
  ContentLine, split_line, before, line_of, read_param, is_written, parse_content_line, param_value,
  within, strip_quotes, strip_quote_end,
}
use mailclient.Content.Lines.Escapes.{escape_caret, escape_caret-plain, caret_from-escape}

-- A letter of a name: upper case, a digit or a dash.
abbrev pub is_name_letter : ℕ → Bool
is_name_letter c = in_range b'A' b'Z' c || (in_range b'0' b'9' c || (c == b'-'))

abbrev pub IsName : Text → Type 0
IsName n = (all is_name_letter n ≡ true) × (is_empty n ≡ false)

abbrev quoted : Text → Text
quoted v = b'"' ∷ escape_caret v ++ b'"' ∷ []

abbrev print_param : Text × Text → Text
print_param (n, v) = n ++ b'=' ∷ quoted v

unfoldable pub print_params : List (Text × Text) → Text
print_params [] = []
print_params (p ∷ ps) = b';' ∷ print_param p ++ print_params ps

unfoldable pub print_line : ContentLine → Text
unfolding print_params
print_line l = l.name ++ print_params l.params ++ b':' ∷ l.value

abbrev pub IsLine : ContentLine → Type 0
IsLine l = IsName l.name × All (λ (p : Text × Text). IsName p.0) l.params

letter_plain :
    (c : ℕ)
    → is_name_letter c ≡ true
    → ((c == b'"') ≡ false) × ((c == b';') ≡ false) × ((c == b':') ≡ false) × ((c == b'=') ≡ false)
letter_plain c h = (ground arith, ground arith, ground arith, ground arith)

letter_solid : (c : ℕ) → is_name_letter c ≡ true → is_whitespace c ≡ false
unfolding is_whitespace
letter_solid c h = ground arith

letter_upper : (c : ℕ) → is_name_letter c ≡ true → upper c ≡ c
unfolding upper
letter_upper c h = ground arith

all-head : (test : ℕ → Bool) (c : ℕ) (cs : Text) → all test (c ∷ cs) ≡ true → test c ≡ true
unfolding all
all-head test c cs h = and_left _ _ h

all-tail : (test : ℕ → Bool) (c : ℕ) (cs : Text) → all test (c ∷ cs) ≡ true → all test cs ≡ true
unfolding all
all-tail test c cs h = and_right _ _ h

upper-name : (n : Text) → all is_name_letter n ≡ true → to_ascii_uppercase n ≡ n
unfolding to_ascii_uppercase
upper-name [] h = refl
upper-name (c ∷ cs) h =
    rw
      (
        letter_upper c (all-head is_name_letter c cs h),
        upper-name cs (all-tail is_name_letter c cs h),
      )
      refl

trim_end-name : (n : Text) → all is_name_letter n ≡ true → trim_end n ≡ n
unfolding trim_end
trim_end-name [] h = refl
trim_end-name (c ∷ cs) h =
    rw
      (
        letter_solid c (all-head is_name_letter c cs h),
        trim_end-name cs (all-tail is_name_letter c cs h),
      )
      refl

trim-name : (n : Text) → all is_name_letter n ≡ true → trim n ≡ n
unfolding trim trim_start
trim-name [] h = trim_end-name [] h
trim-name (c ∷ cs) h =
    rw (letter_solid c (all-head is_name_letter c cs h)) (trim_end-name (c ∷ cs) h)

-- A text put before the first segment.
abbrev prepend : Text → Option (List Text × Text) → Option (List Text × Text)
prepend [] r = r
prepend (c ∷ cs) r = before c (prepend cs r)

split_line-name :
    (n rest : Text)
    → all is_name_letter n ≡ true
    → split_line false (n ++ rest) ≡ prepend n (split_line false rest)
unfolding split_line
split_line-name [] rest h = refl
split_line-name (c ∷ cs) rest h =
    let (no_quote, no_semicolon, no_colon, _) = letter_plain c (all-head is_name_letter c cs h) in
    rw (no_quote, no_semicolon, no_colon, split_line-name cs rest (all-tail is_name_letter c cs h))
      refl

never : (b : Bool) → (b && false) ≡ false
never true = refl
never false = refl

split_line-quoted :
    (s rest : Text)
    → any (λ c. c == b'"') s ≡ false
    → split_line true (s ++ b'"' ∷ rest) ≡ prepend s (before b'"' (split_line false rest))
unfolding split_line any
split_line-quoted [] rest h = refl
split_line-quoted (c ∷ cs) rest h =
    rw
      (
        or_left (c == b'"') (any (λ c. c == b'"') cs) h,
        never (c == b';'),
        never (c == b':'),
        split_line-quoted cs rest (or_right (c == b'"') (any (λ c. c == b'"') cs) h),
      )
      refl

prepend-append :
    (w v : Text) (r : Option (List Text × Text)) → prepend (w ++ v) r ≡ prepend w (prepend v r)
prepend-append [] v r = refl
prepend-append (c ∷ w) v r = ap (before c) (prepend-append w v r)

prepend-some :
    (w s : Text) (segs : List Text) (value : Text)
    → prepend w (some (s ∷ segs, value)) ≡ some ((w ++ s) ∷ segs, value)
unfolding attach
prepend-some [] s segs value = refl
prepend-some (c ∷ w) s segs value = ap (before c) (prepend-some w s segs value)

param_parts :
    (n v rest : Text)
    → print_param (n, v) ++ rest ≡ n ++ (b'=' ∷ b'"' ∷ (escape_caret v ++ b'"' ∷ rest))
param_parts n v rest = simp (append_assoc)

split_line-param :
    (n v rest : Text)
    → all is_name_letter n ≡ true
    → split_line false (print_param (n, v) ++ rest)
      ≡ prepend (print_param (n, v)) (split_line false rest)
unfolding split_line
split_line-param n v rest h =
    let r = split_line false rest in
    rw
      (
        param_parts n v rest,
        split_line-name n (b'=' ∷ b'"' ∷ (escape_caret v ++ b'"' ∷ rest)) h,
        split_line-quoted (escape_caret v) rest (escape_caret-plain v),
        prepend-append n (b'=' ∷ quoted v) r,
        prepend-append (escape_caret v) (b'"' ∷ []) r,
      )
      refl

split_line-params :
    (ps : List (Text × Text)) (value : Text)
    → All (λ (p : Text × Text). IsName p.0) ps
    → split_line false (print_params ps ++ b':' ∷ value) ≡ some ([] ∷ map print_param ps, value)
unfolding split_line print_params
split_line-params [] value h = refl
split_line-params ((n, v) ∷ ps) value ((letters, there), hs) =
    let rest = print_params ps ++ b':' ∷ value in
    rw
      (
        append_assoc (print_param (n, v)) (print_params ps) (b':' ∷ value),
        split_line-param n v rest letters,
        split_line-params ps value hs,
        prepend-some (print_param (n, v)) [] (map print_param ps) value,
        append-nil (print_param (n, v)),
      )
      refl

not_empty-append : (s : Text) (c : ℕ) (cs : Text) → is_empty (s ++ c ∷ cs) ≡ false
not_empty-append [] c cs = refl
not_empty-append (x ∷ s) c cs = refl

trim_end-quote : (s : Text) → trim_end (s ++ b'"' ∷ []) ≡ s ++ b'"' ∷ []
unfolding trim_end is_whitespace
trim_end-quote [] = refl
trim_end-quote (c ∷ s) =
    rw (trim_end-quote s, not_empty-append s b'"' [], never (is_whitespace c)) refl

strip_quote_end-quoted :
    (s : Text) → any (λ c. c == b'"') s ≡ false → strip_quote_end (s ++ b'"' ∷ []) ≡ some s
unfolding strip_quote_end any
strip_quote_end-quoted [] h = refl
strip_quote_end-quoted (c ∷ cs) h =
    rw
      (
        or_left (c == b'"') (any (λ c. c == b'"') cs) h,
        strip_quote_end-quoted cs (or_right (c == b'"') (any (λ c. c == b'"') cs) h),
      )
      refl

trim-quoted : (v : Text) → trim (quoted v) ≡ quoted v
unfolding trim trim_start is_whitespace
trim-quoted v = trim_end-quote (b'"' ∷ escape_caret v)

strip_quotes-quoted : (v : Text) → strip_quotes (quoted v) ≡ some (escape_caret v)
unfolding strip_quotes
strip_quotes-quoted v = strip_quote_end-quoted (escape_caret v) (escape_caret-plain v)

-- Any value of a parameter comes back, quotes, carets and newlines in it as well.
pub param_value-quoted : (v : Text) → param_value (quoted v) ≡ v
unfolding param_value within
param_value-quoted v =
    ap (λ t. within t (strip_quotes t)) (trim-quoted v)
    ∙ ap (within (quoted v)) (strip_quotes-quoted v)
    ∙ caret_from-escape v

split_once-name :
    (n rest : Text)
    → all is_name_letter n ≡ true
    → split_once b'=' (n ++ b'=' ∷ rest) ≡ some (n, rest)
unfolding split_once
split_once-name [] rest h = refl
split_once-name (c ∷ cs) rest h =
    rw
      (
        (letter_plain c (all-head is_name_letter c cs h)).3,
        split_once-name cs rest (all-tail is_name_letter c cs h),
      )
      refl

read-print_param :
    (n v : Text) → all is_name_letter n ≡ true → read_param (print_param (n, v)) ≡ (n, v)
unfolding read_param
read-print_param n v h =
    rw
      (
        read_param,
        split_once-name n (quoted v) h,
        trim-name n h,
        upper-name n h,
        param_value-quoted v,
      )
      refl

written : (n rest : Text) → IsName n → is_written (n ++ rest) ≡ true
unfolding trim trim_start trim_end
written [] rest (letters, there) = cc
written (c ∷ cs) rest (letters, there) =
    let solid = letter_solid c (all-head is_name_letter c cs letters) in
    rw (solid) (rw (solid) refl)

read_whole :
    (ps : List (Text × Text))
    → All (λ (p : Text × Text). IsName p.0) ps
    → map read_param (select_where is_written (map print_param ps)) ≡ ps
unfolding select_where
read_whole [] h = refl
read_whole ((n, v) ∷ ps) (name, hs) =
    rw (written n (b'=' ∷ quoted v) name, read-print_param n v name.0, read_whole ps hs) refl

line_of-printed :
    (l : ContentLine) → IsLine l → line_of (l.name ∷ map print_param l.params) l.value ≡ some l
unfolding line_of
line_of-printed l ((letters, there), hs) =
    rw (line_of, trim-name l.name letters, upper-name l.name letters, there, read_whole l.params hs)
      refl

-- A line comes back from the text that a writer prints: its name and those of its parameters of
-- upper-case letters, digits and dashes, each value of a parameter in quotes with its carets,
-- quotes and newlines escaped, and the value whatever it is.
pub parse_content_line-print :
    (l : ContentLine) → IsLine l → parse_content_line (print_line l) ≡ some l
unfolding parse_content_line print_line
parse_content_line-print l (name, hs) =
    rw
      (
        parse_content_line,
        append_assoc l.name (print_params l.params) (b':' ∷ l.value),
        split_line-name l.name (print_params l.params ++ b':' ∷ l.value) name.0,
        split_line-params l.params l.value hs,
        prepend-some l.name [] (map print_param l.params) l.value,
        append-nil l.name,
      )
      (line_of-printed l (name, hs))
