-- ===== src/Content/Times.antt =====
-- `parse_duration_seconds` of crates/mailcore/src/calendar/time.rs. An i64 that is not negative is a
-- number below 2^63; the letters and signs are ASCII.
pub mod Parts
pub mod Sum
use mailclient.Base.{
  ℕ, ◌+◌, ◌-◌, ◌*◌, ◌^◌, Bool, true, false, not, ◌&&◌, ◌||◌, Option, none, some, List, [], ◌∷◌,
  ◌++◌, ◌==◌, ltb, if◌then◌else◌, is_empty, and_then,
}
use mailclient.Base.Text.{Text}
use mailclient.Base.Strings.{trim, upper, is_ascii_digit}

abbrev pub i64_limit : ℕ
i64_limit = 2 ^ 63

-- What fits in an i64.
abbrev pub fits : ℕ → Option ℕ
fits n = if ltb n i64_limit then some n else none

unfoldable pub digits_value : ℕ → Text → ℕ
digits_value n [] = n
digits_value n (c ∷ cs) = digits_value (10 * n + (c - b'0')) cs

-- `num_buf.parse::<i64>().ok()`, of digits.
unfoldable pub parse_i64 : Text → Option ℕ
unfolding digits_value
parse_i64 [] = none
parse_i64 (c ∷ cs) = fits (digits_value 0 (c ∷ cs))

unfoldable pub unit_of : Bool → ℕ → Option ℕ
unit_of in_time c =
    if (c == b'W') && not in_time
    then some (7 * 86_400)
    else if (c == b'D') && not in_time
    then some 86_400
    else if (c == b'H') && in_time
    then some 3_600
    else if (c == b'M') && in_time
    then some 60
    else if (c == b'S') && in_time
    then some 1
    else none

pub record Reading : Type 0 where
  pub total : ℕ
  pub in_time : Bool
  pub num_buf : Text

-- A part ends at its letter: `checked_mul` and `checked_add`.
unfoldable pub add_part : Reading → ℕ → Option Reading
unfolding parse_i64 unit_of
add_part r c = and_then (parse_i64 r.num_buf) (λ val. and_then (unit_of r.in_time c) (λ unit.
    and_then (fits (val * unit)) (λ product.
      and_then (fits (r.total + product))
        (λ total. some (record { total = total; in_time = r.in_time; num_buf = [] })))))

unfoldable pub read_char : Reading → ℕ → Option Reading
unfolding add_part upper is_ascii_digit
read_char r letter =
    let c = upper letter in
    if c == b'T'
    then some (record { total = r.total; in_time = true; num_buf = r.num_buf })
    else if is_ascii_digit c
    then some (record { total = r.total; in_time = r.in_time; num_buf = r.num_buf ++ c ∷ [] })
    else add_part r c

unfoldable pub read_chars : Reading → Text → Option ℕ
unfolding read_char
read_chars r [] = if is_empty r.num_buf then some r.total else none
read_chars r (c ∷ cs) = and_then (read_char r c) (λ r'. read_chars r' cs)

-- `strip_prefix('+').unwrap_or(d)`
abbrev pub without_plus : Text → Text
without_plus [] = []
without_plus (c ∷ cs) = if c == b'+' then cs else c ∷ cs

abbrev pub strip_p : Text → Option Text
strip_p [] = none
strip_p (c ∷ cs) = if (c == b'P') || (c == b'p') then some cs else none

abbrev pub start : Reading
start = record { total = 0; in_time = false; num_buf = [] }

unfoldable pub parse_duration_seconds : Text → Option ℕ
unfolding read_chars trim
parse_duration_seconds d =
    and_then (strip_p (without_plus (trim d))) (λ rest. read_chars start rest)
