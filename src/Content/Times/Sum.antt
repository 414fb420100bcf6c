-- ===== src/Content/Times/Sum.antt =====
-- A duration is the sum of its parts.
use mailclient.Base.{
  ℕ, ◌+◌, ◌≡◌, refl, sym, ap, ◌∙◌, Bool, true, false, List, [], ◌∷◌, ◌++◌, ltb, and_then, arith,
  Bool-cases, inl, inr, All, append_assoc, append-nil, and_left, and_right, or_left, or_right,
}
use mailclient.Base.Text.{Text}
use mailclient.Base.Strings.{
  all, any, upper, is_ascii_digit, is_whitespace, trim, trim_start, trim_end,
}
use mailclient.Content.Times.{
  fits, i64_limit, read_char, read_chars, start, parse_duration_seconds, strip_p, without_plus,
}
use mailclient.Content.Times.Parts.{
  UnitName, weeks, days, hours, minutes, secs, letter, Part, IsPart, print_parts, seconds_of, at,
  read_parts_small, read_parts_big, fits_small, fits_big,
}

digit_solid : (c : ℕ) → is_ascii_digit c ≡ true → is_whitespace c ≡ false
unfolding is_ascii_digit is_whitespace
digit_solid c h = ground arith

letter_solid : (u : UnitName) → is_whitespace (letter u) ≡ false
unfolding is_whitespace
letter_solid weeks = refl
letter_solid days = refl
letter_solid hours = refl
letter_solid minutes = refl
letter_solid secs = refl

digits_solid :
    (digits rest : Text)
    → all is_ascii_digit digits ≡ true
    → any is_whitespace rest ≡ false
    → any is_whitespace (digits ++ rest) ≡ false
unfolding any all
digits_solid [] rest h h' = h'
digits_solid (c ∷ cs) rest h h' =
    rw
      (
        digit_solid c (and_left (is_ascii_digit c) (all is_ascii_digit cs) h),
        digits_solid cs rest (and_right (is_ascii_digit c) (all is_ascii_digit cs) h) h',
      )
      refl

parts_solid :
    (b : Bool) (ps : List Part) (rest : Text)
    → All (IsPart b) ps
    → any is_whitespace rest ≡ false
    → any is_whitespace (print_parts ps ++ rest) ≡ false
unfolding any print_parts
parts_solid b [] rest h h' = h'
parts_solid b ((digits, u) ∷ ps) rest ((letters, there, same), hs) h' =
    rw (append_assoc digits (letter u ∷ print_parts ps) rest) (
      digits_solid digits (letter u ∷ (print_parts ps ++ rest)) letters
        (rw (letter_solid u, parts_solid b ps rest hs h') refl))

printed_solid :
    (ds ts : List Part)
    → All (IsPart false) ds
    → All (IsPart true) ts
    → any is_whitespace (b'P' ∷ print_parts ds ++ b'T' ∷ print_parts ts) ≡ false
unfolding any is_whitespace
printed_solid ds ts hd ht =
    let time =
      ap (any is_whitespace) (sym (append-nil (print_parts ts))) ∙ parts_solid true ts [] ht refl in
    parts_solid false ds (b'T' ∷ print_parts ts) hd time

trim_end-solid : (s : Text) → any is_whitespace s ≡ false → trim_end s ≡ s
unfolding trim_end any
trim_end-solid [] h = refl
trim_end-solid (c ∷ cs) h =
    rw
      (
        or_left (is_whitespace c) (any is_whitespace cs) h,
        trim_end-solid cs (or_right (is_whitespace c) (any is_whitespace cs) h),
      )
      refl

trim-solid : (s : Text) → any is_whitespace s ≡ false → trim s ≡ s
unfolding trim trim_start any
trim-solid [] h = trim_end-solid [] h
trim-solid (c ∷ cs) h =
    rw (or_left (is_whitespace c) (any is_whitespace cs) h) (trim_end-solid (c ∷ cs) h)

no_seconds : (n : ℕ) → 0 + n ≡ n
no_seconds n = omega arith

read_whole :
    (ds ts : List Part)
    → All (IsPart false) ds
    → All (IsPart true) ts
    → read_chars start (print_parts ds ++ b'T' ∷ print_parts ts)
      ≡ fits (seconds_of ds + seconds_of ts)
unfolding read_chars read_char upper
read_whole ds ts hd ht =
    let time = print_parts ts in
    elim (Bool-cases (ltb (seconds_of ds) i64_limit)) [
      | inr over ↦
          read_parts_big ds 0 false (b'T' ∷ time) hd (omega arith) (ground arith)
          ∙ sym (fits_big (seconds_of ds + seconds_of ts) (ground arith))
      | inl under ↦
          (let first =
              read_parts_small ds 0 false (b'T' ∷ time) hd (ground arith)
              ∙ ap (λ n. read_chars (at n false []) (b'T' ∷ time)) (no_seconds (seconds_of ds)) in
            let second = ap (read_chars (at (seconds_of ds) true [])) (sym (append-nil time)) in
            elim (Bool-cases (ltb (seconds_of ds + seconds_of ts) i64_limit)) [
              | inr over ↦
                  first
                  ∙ second
                  ∙ read_parts_big ts (seconds_of ds) true [] ht (ground arith) (ground arith)
                  ∙ sym (fits_big (seconds_of ds + seconds_of ts) (ground arith))
              | inl fitting ↦
                  first
                  ∙ second
                  ∙ read_parts_small ts (seconds_of ds) true [] ht (ground arith)
                  ∙ sym (fits_small (seconds_of ds + seconds_of ts) (ground arith))
            ])
    ]

-- A `P`, any parts in weeks and days, a `T` and any parts in hours, minutes and seconds, each
-- part with any digits, is read as the sum of the parts, and refused exactly when the sum does
-- not fit in an i64. The parts may come in any order, repeated, or not at all, also where RFC
-- 5545 calls such a duration malformed.
pub parse_duration_seconds-sum :
    (ds ts : List Part)
    → All (IsPart false) ds
    → All (IsPart true) ts
    → parse_duration_seconds (b'P' ∷ print_parts ds ++ b'T' ∷ print_parts ts)
      ≡ fits (seconds_of ds + seconds_of ts)
unfolding parse_duration_seconds
parse_duration_seconds-sum ds ts hd ht =
    let text : Text = b'P' ∷ print_parts ds ++ b'T' ∷ print_parts ts in
    ap (λ s. and_then (strip_p (without_plus s)) (λ rest. read_chars start rest))
      (trim-solid text (printed_solid ds ts hd ht))
    ∙ read_whole ds ts hd ht
