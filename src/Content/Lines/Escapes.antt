-- ===== src/Content/Lines/Escapes.antt =====
-- The escapes of RFC 5545 and RFC 6868, written by an encoder, are read back.
use mailclient.Base.{
  ℕ, ◌≡◌, refl, sym, ap, Bool, true, false, ◌||◌, [], ◌∷◌, ◌==◌, if◌then◌else◌, arith, Bool-cases,
  inl, inr, ==_iff,
}
use mailclient.Base.Text.{Text}
use mailclient.Base.Strings.{any}
use mailclient.Content.Lines.{unescape_from, unescape_text, caret_from, is_n}

abbrev pub is_escaped : ℕ → Bool
is_escaped c = (c == b',') || ((c == b';') || (c == b'\\'))

-- A backslash before each comma, semicolon and backslash, and `\n` for a newline.
unfoldable pub escape : Text → Text
escape [] = []
escape (c ∷ cs) =
    let rest = escape cs in
    if c == b'\n' then b'\\' ∷ b'n' ∷ rest else if is_escaped c then b'\\' ∷ c ∷ rest else c ∷ rest

-- `^n` for a newline, `^'` for a double quote and `^^` for a caret.
unfoldable pub escape_caret : Text → Text
escape_caret [] = []
escape_caret (c ∷ cs) =
    let rest = escape_caret cs in
    if c == b'\n'
    then b'^' ∷ b'n' ∷ rest
    else if c == b'"'
    then b'^' ∷ b'\'' ∷ rest
    else if c == b'^'
    then b'^' ∷ b'^' ∷ rest
    else c ∷ rest

newline_first : (c : ℕ) (cs : Text) → (c == b'\n') ≡ true → b'\n' ∷ cs ≡ c ∷ cs
newline_first c cs h = ap (λ a. a ∷ cs) (sym ((==_iff c b'\n').0 h))

escaped_letter : (c : ℕ) → is_escaped c ≡ true → is_n c ≡ false
escaped_letter c h = ground arith

plain_letter : (c : ℕ) → is_escaped c ≡ false → (c == b'\\') ≡ false
plain_letter c h = ground arith

-- A text value comes back from its escaped form, whatever it holds. Escaped, a comma, a
-- semicolon and a backslash have a backslash before them, and a newline is a backslash and an
-- n.
pub unescape_text-escape : (s : Text) → unescape_text (escape s) ≡ s
unfolding unescape_text unescape_from escape
unescape_text-escape [] = refl
unescape_text-escape (c ∷ cs) = elim (Bool-cases (c == b'\n')) [
  | inl newline ↦ rw (newline, unescape_text-escape cs) (newline_first c cs newline)
  | inr other ↦ elim (Bool-cases (is_escaped c)) [
    | inl escaped ↦ rw (other, escaped, escaped_letter c escaped, unescape_text-escape cs) refl
    | inr plain ↦ rw (other, plain, plain_letter c plain, unescape_text-escape cs) refl
  ]
]

pub caret_from-escape : (s : Text) → caret_from false (escape_caret s) ≡ s
unfolding caret_from escape_caret
caret_from-escape [] = refl
caret_from-escape (c ∷ cs) = ground (arith, caret_from-escape cs)

pub escape_caret-plain : (s : Text) → any (λ c. c == b'"') (escape_caret s) ≡ false
unfolding any escape_caret
escape_caret-plain [] = refl
escape_caret-plain (c ∷ cs) = ground (arith, escape_caret-plain cs)
