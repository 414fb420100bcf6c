-- ===== src/Base/Strings.antt =====
-- The methods of `char` and `str` that several parts call, on texts as the lists of their code
-- points.
use Prim.Native.Nat.{ℕ, ◌+◌, ◌-◌}
use mathlib.Core.Path.{◌≡◌, refl}
use native.Mathlib.Omega.{arith}
use mathlib.Core.Bool.{Bool, true, false, not, ◌&&◌, ◌||◌}
use mathlib.Core.Option.{Option, none, some}
use mathlib.Core.List.{List, [], ◌∷◌, ◌++◌}
use mailclient.Base.Tests.{◌==◌, if◌then◌else◌}
use mailclient.Base.Lists.{is_empty}
use mailclient.Base.Text.{Text, in_range}

-- `char::is_whitespace`
unfoldable pub is_whitespace : ℕ → Bool
is_whitespace c =
    in_range 0x9 0xd c
    || (c == 0x20)
    || (c == 0x85)
    || (c == 0xa0)
    || (c == 0x1680)
    || in_range 0x2000 0x200a c
    || (c == 0x2028)
    || (c == 0x2029)
    || (c == 0x202f)
    || (c == 0x205f)
    || (c == 0x3000)

unfoldable pub is_ascii_digit : ℕ → Bool
is_ascii_digit c = in_range b'0' b'9' c

-- `char::to_ascii_lowercase` and `char::to_ascii_uppercase`
unfoldable pub lower : ℕ → ℕ
lower c = if in_range b'A' b'Z' c then c + 32 else c

unfoldable pub upper : ℕ → ℕ
upper c = if in_range b'a' b'z' c then c - 32 else c

unfoldable pub to_ascii_lowercase : Text → Text
unfolding lower
to_ascii_lowercase [] = []
to_ascii_lowercase (c ∷ cs) = lower c ∷ to_ascii_lowercase cs

unfoldable pub to_ascii_uppercase : Text → Text
unfolding upper
to_ascii_uppercase [] = []
to_ascii_uppercase (c ∷ cs) = upper c ∷ to_ascii_uppercase cs

-- `==` of two texts.
unfoldable pub same_text : Text → Text → Bool
same_text [] [] = true
same_text [] (d ∷ ds) = false
same_text (c ∷ cs) [] = false
same_text (c ∷ cs) (d ∷ ds) = (c == d) && same_text cs ds

unfoldable pub eq_ignore_ascii_case : Text → Text → Bool
unfolding to_ascii_lowercase same_text
eq_ignore_ascii_case s t = same_text (to_ascii_lowercase s) (to_ascii_lowercase t)

-- `chars().any` and `chars().all`
unfoldable pub any : (ℕ → Bool) → Text → Bool
any test [] = false
any test (c ∷ cs) = test c || any test cs

pub any-append :
    (test : ℕ → Bool) (xs ys : Text) → any test (xs ++ ys) ≡ (any test xs || any test ys)
unfolding any
any-append test [] ys = refl
any-append test (x ∷ xs) ys = ground (arith, any-append test xs ys)

unfoldable pub all : (ℕ → Bool) → Text → Bool
all test [] = true
all test (c ∷ cs) = test c && all test cs

unfoldable pub trim_start : Text → Text
unfolding is_whitespace
trim_start [] = []
trim_start (c ∷ cs) = let rest = trim_start cs in if is_whitespace c then rest else c ∷ cs

unfoldable pub trim_end : Text → Text
unfolding is_whitespace
trim_end [] = []
trim_end (c ∷ cs) =
    let rest = trim_end cs in if is_whitespace c && is_empty rest then [] else c ∷ rest

unfoldable pub trim : Text → Text
unfolding trim_start trim_end
trim s = trim_end (trim_start s)

-- The text before the first character that the test takes, and the text from there on:
-- `&s[..end]` and `&s[end..]` with `end = s.find(test).unwrap_or(s.len())`.
unfoldable pub split_at_first : (ℕ → Bool) → Text → Text × Text
split_at_first test [] = ([], [])
split_at_first test (c ∷ cs) =
    let (before, rest) = split_at_first test cs in
    if test c then ([], c ∷ cs) else (c ∷ before, rest)

-- `str::split_once` at one character.
unfoldable pub split_once : ℕ → Text → Option (Text × Text)
split_once a [] = none
split_once a (c ∷ cs) =
    let rest = split_once a cs in
    if c == a
    then some ([], cs)
    else elim rest [ none ↦ none | some (before, after) ↦ some (c ∷ before, after) ]

-- A character put before the first word.
unfoldable pub attach : ℕ → List Text → List Text
attach c [] = (c ∷ []) ∷ []
attach c (w ∷ ws) = (c ∷ w) ∷ ws

unfoldable pub starts_word : Text → Bool
unfolding is_whitespace
starts_word [] = false
starts_word (c ∷ cs) = not (is_whitespace c)

unfoldable pub split_whitespace : Text → List Text
unfolding attach starts_word is_whitespace
split_whitespace [] = []
split_whitespace (c ∷ cs) =
    let rest = split_whitespace cs in
    if is_whitespace c then rest else if starts_word cs then attach c rest else (c ∷ []) ∷ rest

unfoldable pub join : Text → List Text → Text
join separator [] = []
join separator (w ∷ []) = w
join separator (w ∷ v ∷ ws) = w ++ (separator ++ join separator (v ∷ ws))
