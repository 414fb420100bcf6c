-- ===== src/Base/Text.antt =====
-- Text as the list of its characters, a character as its code point.
use Prim.Native.Nat.{ℕ, ◌≤◌, ◌<◌}
use Prim.Native.Char.{code}
use Prim.Native.String.{String}
use mathlib.Core.Logic.{◌⊎◌}
use mathlib.Core.Bool.{Bool, true, false, ◌&&◌, ◌||◌}
use mathlib.Core.List.{List, [], ◌∷◌}
use mailclient.Base.Tests.{leb, ◌==◌, if◌then◌else◌}
use mailclient.Base.Lists.{is_empty}

abbrev pub Text : Type 0
Text = List ℕ

-- The code points of a literal.
abbrev pub codes : String → Text
codes String.[] = []
codes (String.◌∷◌ c s) = code c ∷ codes s

abbrev pub in_range : ℕ → ℕ → ℕ → Bool
in_range low high c = leb low c && leb c high

-- `char::is_ascii_alphanumeric`
abbrev pub is_ascii_alphanumeric : ℕ → Bool
is_ascii_alphanumeric c = in_range b'0' b'9' c || (in_range b'A' b'Z' c || in_range b'a' b'z' c)

-- `str::replace` of one character by another.
unfoldable pub replace : ℕ → ℕ → Text → Text
replace from to [] = []
replace from to (c ∷ cs) = (if c == from then to else c) ∷ replace from to cs

-- `str::trim_end_matches` of one character.
unfoldable pub trim_end_matches : ℕ → Text → Text
trim_end_matches a [] = []
trim_end_matches a (c ∷ cs) =
    let rest = trim_end_matches a cs in if (c == a) && is_empty rest then [] else c ∷ rest

-- A `char`: any code point but a surrogate.
abbrev pub IsScalar : ℕ → Type 0
IsScalar c = (c < 0xd800) ⊎ ((0xe000 ≤ c) × (c < 0x110000))

-- `starts_with`
abbrev pub starts_with : Text → Text → Bool
starts_with [] s = true
starts_with (p ∷ ps) [] = false
starts_with (p ∷ ps) (c ∷ cs) = (p == c) && starts_with ps cs
