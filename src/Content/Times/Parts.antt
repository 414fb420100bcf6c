-- ===== src/Content/Times/Parts.antt =====
-- The parts of a duration, and how the loop reads them.
use mailclient.Base.{
  ℕ, ◌+◌, ◌*◌, ◌<◌, ◌≤◌, ◌≡◌, refl, sym, ap, ◌∙◌, Bool, true, false, Option, none, some, List, [],
  ◌∷◌, ◌++◌, ◌==◌, ltb, is_empty, and_then, arith, Bool-cases, inl, inr, All, append_assoc,
  append-nil, and_left, and_right,
}
use mailclient.Base.Text.{Text}
use mailclient.Base.Strings.{all, upper, is_ascii_digit}
use mailclient.Content.Times.{
  fits, i64_limit, digits_value, parse_i64, unit_of, Reading, add_part, read_char, read_chars,
}

-- A number of weeks, days, hours, minutes or seconds, by its digits.
pub data UnitName : Type 0 where
  weeks days hours minutes secs : UnitName

abbrev pub letter : UnitName → ℕ
letter weeks = b'W'
letter days = b'D'
letter hours = b'H'
letter minutes = b'M'
letter secs = b'S'

abbrev pub length_of : UnitName → ℕ
length_of weeks = 604_800
length_of days = 86_400
length_of hours = 3_600
length_of minutes = 60
length_of secs = 1

abbrev pub of_time : UnitName → Bool
of_time weeks = false
of_time days = false
of_time _ = true

abbrev pub Part : Type 0
Part = Text × UnitName

abbrev pub IsPart : Bool → Part → Type 0
IsPart in_time (digits, u) =
    (all is_ascii_digit digits ≡ true) × (is_empty digits ≡ false) × (of_time u ≡ in_time)

unfoldable pub print_parts : List Part → Text
print_parts [] = []
print_parts ((digits, u) ∷ ps) = digits ++ letter u ∷ print_parts ps

unfoldable pub seconds_of : List Part → ℕ
unfolding digits_value
seconds_of [] = 0
seconds_of ((digits, u) ∷ ps) = digits_value 0 digits * length_of u + seconds_of ps

digit_upper : (c : ℕ) → is_ascii_digit c ≡ true → upper c ≡ c
unfolding upper is_ascii_digit
digit_upper c h = ground arith

digit_no_t : (c : ℕ) → is_ascii_digit c ≡ true → (c == b'T') ≡ false
unfolding is_ascii_digit
digit_no_t c h = ground arith

letter_read :
    (u : UnitName)
    → (upper (letter u) ≡ letter u)
      × ((letter u == b'T') ≡ false)
      × (is_ascii_digit (letter u) ≡ false)
      × (unit_of (of_time u) (letter u) ≡ some (length_of u))
unfolding upper is_ascii_digit unit_of
letter_read weeks = (refl, refl, refl, refl)
letter_read days = (refl, refl, refl, refl)
letter_read hours = (refl, refl, refl, refl)
letter_read minutes = (refl, refl, refl, refl)
letter_read secs = (refl, refl, refl, refl)

abbrev pub at : ℕ → Bool → Text → Reading
at total in_time num_buf = record { total = total; in_time = in_time; num_buf = num_buf }

read_digit :
    (c t : ℕ) (b : Bool) (buf : Text)
    → is_ascii_digit c ≡ true
    → read_char (at t b buf) c ≡ some (at t b (buf ++ c ∷ []))
unfolding read_char
read_digit c t b buf h = rw (digit_upper c h, digit_no_t c h, h) refl

read_digits :
    (digits rest : Text) (t : ℕ) (b : Bool) (buf : Text)
    → all is_ascii_digit digits ≡ true
    → read_chars (at t b buf) (digits ++ rest) ≡ read_chars (at t b (buf ++ digits)) rest
unfolding read_chars all
read_digits [] rest t b buf h = ap (λ x. read_chars (at t b x) rest) (sym (append-nil buf))
read_digits (c ∷ cs) rest t b buf h =
    ap (λ o. and_then o (λ r. read_chars r (cs ++ rest)))
      (read_digit c t b buf (and_left (is_ascii_digit c) (all is_ascii_digit cs) h))
    ∙ read_digits cs rest t b (buf ++ c ∷ [])
        (and_right (is_ascii_digit c) (all is_ascii_digit cs) h)
    ∙ ap (λ x. read_chars (at t b x) rest) (append_assoc buf (c ∷ []) cs)

pub fits_small : (n : ℕ) → n < i64_limit → fits n ≡ some n
fits_small n h = ground arith

pub fits_big : (n : ℕ) → i64_limit ≤ n → fits n ≡ none
fits_big n h = ground arith

at_least : (v : ℕ) (u : UnitName) → v ≤ v * length_of u
at_least v weeks = omega arith
at_least v days = omega arith
at_least v hours = omega arith
at_least v minutes = omega arith
at_least v secs = omega arith

read_letter :
    (t : ℕ) (b : Bool) (u : UnitName) (c : ℕ) (cs : Text)
    → of_time u ≡ b
    → (let v = digits_value 0 (c ∷ cs) in
        read_char (at t b (c ∷ cs)) (letter u)
        ≡ and_then (fits v) (λ v.
          and_then
            (fits (v * length_of u))
            (λ product. and_then (fits (t + product)) (λ total. some (at total b [])))))
unfolding read_char add_part parse_i64
read_letter t b u c cs h =
    let (same, no_t, no_digit, unit) = letter_read u in rw (same, no_t, no_digit, sym h, unit) refl

-- The checked arithmetic of a part.
abbrev checked : ℕ → Bool → UnitName → ℕ → Option Reading
checked t b u v = and_then (fits v) (λ v.
    and_then (fits (v * length_of u))
      (λ product. and_then (fits (t + product)) (λ total. some (at total b []))))

checked_small :
    (t : ℕ) (b : Bool) (u : UnitName) (v : ℕ)
    → t + v * length_of u < i64_limit
    → checked t b u v ≡ some (at (t + v * length_of u) b [])
checked_small t b u v h =
    rw
      (
        fits_small v (omega (arith, at_least v u)),
        fits_small (v * length_of u) (omega arith),
        fits_small (t + v * length_of u) h,
      )
      refl

checked_big :
    (t : ℕ) (b : Bool) (u : UnitName) (v : ℕ)
    → i64_limit ≤ t + v * length_of u
    → checked t b u v ≡ none
checked_big t b u v h = elim (Bool-cases (ltb v i64_limit)) [
  | inr big ↦ rw (fits_big v (ground arith)) refl
  | inl small ↦ elim (Bool-cases (ltb (v * length_of u) i64_limit)) [
    | inr big' ↦ rw (fits_small v (ground arith), fits_big (v * length_of u) (ground arith)) refl
    | inl small' ↦
        rw
          (
            fits_small v (ground arith),
            fits_small (v * length_of u) (ground arith),
            fits_big (t + v * length_of u) h,
          )
          refl
  ]
]

read_part :
    (t : ℕ) (b : Bool) (digits : Text) (u : UnitName) (rest : Text)
    → IsPart b (digits, u)
    → read_chars (at t b []) (digits ++ letter u ∷ rest)
      ≡ and_then (checked t b u (digits_value 0 digits)) (λ r. read_chars r rest)
unfolding read_chars
read_part t b [] u rest (h, there, same) = cc
read_part t b (c ∷ cs) u rest (h, there, same) =
    read_digits (c ∷ cs) (letter u ∷ rest) t b [] h
    ∙ ap (λ o. and_then o (λ r. read_chars r rest)) (read_letter t b u c cs same)

pub read_parts_small :
    (ps : List Part) (t : ℕ) (b : Bool) (rest : Text)
    → All (IsPart b) ps
    → t + seconds_of ps < i64_limit
    → read_chars (at t b []) (print_parts ps ++ rest)
      ≡ read_chars (at (t + seconds_of ps) b []) rest
unfolding print_parts seconds_of
read_parts_small [] t b rest h small = ap (λ n. read_chars (at n b []) rest) (omega arith)
read_parts_small ((digits, u) ∷ ps) t b rest (h, hs) small =
    let v = digits_value 0 digits * length_of u in
    ap (read_chars (at t b [])) (append_assoc digits (letter u ∷ print_parts ps) rest)
    ∙ read_part t b digits u (print_parts ps ++ rest) h
    ∙ ap (λ o. and_then o (λ r. read_chars r (print_parts ps ++ rest)))
        (checked_small t b u (digits_value 0 digits) (omega arith))
    ∙ read_parts_small ps (t + v) b rest hs (omega arith)
    ∙ ap (λ n. read_chars (at n b []) rest) (omega arith)

pub read_parts_big :
    (ps : List Part) (t : ℕ) (b : Bool) (rest : Text)
    → All (IsPart b) ps
    → t < i64_limit
    → i64_limit ≤ t + seconds_of ps
    → read_chars (at t b []) (print_parts ps ++ rest) ≡ none
unfolding print_parts seconds_of
read_parts_big [] t b rest h low big = absurd (omega arith)
read_parts_big ((digits, u) ∷ ps) t b rest (h, hs) low big =
    let v = digits_value 0 digits * length_of u in
    let first =
      ap (read_chars (at t b [])) (append_assoc digits (letter u ∷ print_parts ps) rest)
      ∙ read_part t b digits u (print_parts ps ++ rest) h in
    elim (Bool-cases (ltb (t + v) i64_limit)) [
      | inr over ↦
          first
          ∙ ap (λ o. and_then o (λ r. read_chars r (print_parts ps ++ rest)))
              (checked_big t b u (digits_value 0 digits) (ground arith))
      | inl under ↦
          first
          ∙ ap (λ o. and_then o (λ r. read_chars r (print_parts ps ++ rest)))
              (checked_small t b u (digits_value 0 digits) (ground arith))
          ∙ read_parts_big ps (t + v) b rest hs (ground arith) (omega arith)
    ]
