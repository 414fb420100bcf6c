-- ===== src/Imap/Paths.antt =====
-- `normalize_folder_path` of crates/mailcore/src/sync/imap/roles.rs. The delimiter is one character,
-- as IMAP has it.
pub mod Levels
pub mod Again
use mailclient.Base.{
  ℕ, Bool, true, false, ◌&&◌, ◌||◌, List, [], ◌∷◌, ◌==◌, if◌then◌else◌, is_empty, map,
}
use mailclient.Base.Results.{Result, ok, err}
use mailclient.Base.Text.{Text, in_range, replace}
use mailclient.Base.Strings.{any, attach, trim, join}

pub data PathError : Type 0 where
  empty_name wildcard empty_level control_character : PathError

abbrev pub is_wildcard : ℕ → Bool
is_wildcard c = (c == b'*') || (c == b'%')

-- `char::is_control`
abbrev pub is_control : ℕ → Bool
is_control c = in_range 0 0x1f c || in_range 0x7f 0x9f c

-- `str::split` at one character.
unfoldable pub split : ℕ → Text → List Text
unfolding attach
split d [] = [] ∷ []
split d (c ∷ cs) = let rest = split d cs in if c == d then [] ∷ rest else attach c rest

unfoldable pub any_text : (Text → Bool) → List Text → Bool
any_text test [] = false
any_text test (s ∷ ss) = test s || any_text test ss

unfoldable pub join_levels : ℕ → List Text → Result PathError Text
unfolding any_text any join
join_levels d levels =
    if any_text is_empty levels
    then err empty_level
    else if any_text (any is_control) levels
    then err control_character
    else ok (join (d ∷ []) levels)

abbrev pub unified : ℕ → Text → Text
unified d s = if d == b'/' then s else replace b'/' d s

unfoldable pub normalize_folder_path : Text → ℕ → Result PathError Text
unfolding trim any join_levels split
normalize_folder_path input d =
    let trimmed = trim input in
    if is_empty trimmed
    then err empty_name
    else if any is_wildcard trimmed
    then err wildcard
    else join_levels d (map trim (split d (unified d trimmed)))
