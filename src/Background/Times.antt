-- ===== src/Background/Times.antt =====
-- The typed and stored times of crates/mailcore/src/store/account_settings/quiet_hours.rs, texts as
-- lists of code points.
pub mod RoundTrip
use mailclient.Base.{
  ℕ, ◌+◌, ◌-◌, ◌*◌, ◌/◌, ◌%◌, ◌^◌, Bool, true, false, not, ◌&&◌, ◌||◌, Option, none, some, List, [],
  ◌∷◌, ltb, leb, ◌==◌, if◌then◌else◌, length, is_empty, and_then,
}
use mailclient.Background.QuietHours.{hour}

-- `char::is_whitespace`
abbrev pub is_whitespace : ℕ → Bool
is_whitespace c =
    (leb 9 c && leb c 13)
    || (c == 32
        || (c == 133
            || (c == 160
                || (c == 5760
                    || ((leb 8192 c && leb c 8202)
                        || (c == 8232
                            || (c == 8233 || (c == 8239 || (c == 8287 || c == 12288)))))))))

unfoldable pub trim_start : List ℕ → List ℕ
trim_start [] = []
trim_start (c ∷ text) = if is_whitespace c then trim_start text else c ∷ text

unfoldable pub trim_end : List ℕ → List ℕ
trim_end [] = []
trim_end (c ∷ text) =
    let rest = trim_end text in if is_empty rest && is_whitespace c then [] else c ∷ rest

-- `str::trim` and `str::split_once`
unfoldable pub trim : List ℕ → List ℕ
unfolding trim_start trim_end
trim text = trim_end (trim_start text)

unfoldable pub split_once : ℕ → List ℕ → Option (List ℕ × List ℕ)
split_once mark [] = none
split_once mark (c ∷ text) =
    let rest = split_once mark text in
    if c == mark
    then some ([], text)
    else elim rest [ none ↦ none | some (before, after) ↦ some (c ∷ before, after) ]

-- `str::parse::<u32>`: digits behind at most one plus sign.
abbrev pub is_digit : ℕ → Bool
is_digit c = leb 48 c && leb c 57

unfoldable pub digits : ℕ → List ℕ → Option ℕ
digits value [] = some value
digits value (c ∷ text) =
    let next = value * 10 + (c - 48) in
    let rest = digits next text in if is_digit c && ltb next (2 ^ 32) then rest else none

unfoldable pub parse_u32 : List ℕ → Option ℕ
unfolding digits
parse_u32 [] = none
parse_u32 (c ∷ []) = digits 0 (c ∷ [])
parse_u32 (c ∷ d ∷ text) = if c == 43 then digits 0 (d ∷ text) else digits 0 (c ∷ d ∷ text)

abbrev pub minute : ℕ
minute = 60000000000

-- `NaiveTime::from_hms_opt`
unfoldable pub from_hms_opt : ℕ → ℕ → Option ℕ
from_hms_opt h m = if ltb h 24 && ltb m 60 then some (h * hour + m * minute) else none

-- A length is one of bytes there. A text with a character of several bytes is no number, so it is
-- refused either way.
unfoldable pub parse_time : List ℕ → Option ℕ
unfolding trim split_once parse_u32 from_hms_opt
parse_time value = and_then (split_once 58 (trim value)) λ (h, m).
    if is_empty h || (ltb 2 (length h) || not (length m == 2))
    then none
    else and_then (parse_u32 h)
        λ hours. and_then (parse_u32 m) λ minutes. from_hms_opt hours minutes

-- `%H:%M`
unfoldable pub format_time : ℕ → List ℕ
format_time t =
    let h = t / hour in
    let m = (t / minute) % 60 in
    (48 + h / 10) ∷ (48 + h % 10) ∷ 58 ∷ (48 + m / 10) ∷ (48 + m % 10) ∷ []

unfoldable pub normalize_time : List ℕ → Option (List ℕ)
unfolding parse_time format_time
normalize_time value = elim (parse_time value) [ none ↦ none | some t ↦ some (format_time t) ]

unfoldable pub time_parts : List ℕ → Option (ℕ × ℕ)
unfolding parse_time
time_parts value = elim (parse_time value) [
  | none ↦ none
  | some t ↦ some (t / hour, (t / minute) % 60)
]

unfoldable pub time_at : ℕ → ℕ → Option (List ℕ)
unfolding from_hms_opt format_time
time_at h m = elim (from_hms_opt h m) [ none ↦ none | some t ↦ some (format_time t) ]
