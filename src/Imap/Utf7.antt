-- ===== src/Imap/Utf7.antt =====
-- crates/mailcore/src/sync/imap/utf7.rs: IMAP modified UTF-7, over characters. The source walks
-- bytes, and every character that it looks for is ASCII, so it cuts between characters only.
pub mod Shift
pub mod RoundTrip
pub mod Wire
pub mod Fuel
use mailclient.Base.{
  ℕ, zero, suc, ◌+◌, ◌-◌, ◌*◌, ◌/◌, ◌%◌, ◌≡◌, refl, Bool, true, false, ◌&&◌, ◌||◌, Option, none,
  some, List, [], ◌∷◌, ◌++◌, ◌==◌, if◌then◌else◌, and_then, is_empty, length, replicate,
}
use mathlib.Core.Option
use mailclient.Base.Text.{Text, codes, replace, trim_end_matches, is_ascii_alphanumeric, in_range}
use mailclient.Imap.Utf16.{encode_utf16, decode_utf16}
use mailclient.Imap.Base64.{base64_encode, base64_decode}

-- The bytes of a run of UTF-16 units, the high one first.
unfoldable pub bytes_of_units : List ℕ → List ℕ
bytes_of_units [] = []
bytes_of_units (u ∷ us) = u / 256 % 256 ∷ u % 256 ∷ bytes_of_units us

-- `flush`: what it appends to `out`. An empty run appends nothing.
unfoldable pub flush : List ℕ → Text
flush [] = []
flush (u ∷ us) =
    b'&'
    ∷ (trim_end_matches b'=' (replace b'/' b',' (base64_encode (bytes_of_units (u ∷ us))))
        ++ b'-' ∷ [])

-- `ch.is_ascii() && (0x20..=0x7e).contains(..)`
abbrev pub is_printable : ℕ → Bool
is_printable c = in_range 0x20 0x7e c

-- The loop over the characters, with its `out` and its `run`.
encode_loop : Text → List ℕ → Text → Text
encode_loop out run [] = out ++ flush run
encode_loop out run (c ∷ cs) =
    let amp = encode_loop (out ++ flush run ++ codes "&-") [] cs in
    let plain = encode_loop (out ++ flush run ++ c ∷ []) [] cs in
    let shifted = encode_loop out (run ++ encode_utf16 (c ∷ [])) cs in
    if c == b'&' then amp else if is_printable c then plain else shifted

unfoldable pub encode_modified_utf7 : Text → Text
unfolding encode_loop
encode_modified_utf7 input = encode_loop [] [] input

abbrev pub in_shift : ℕ → Bool
in_shift c = is_ascii_alphanumeric c || (c == b'+' || (c == b',' || c == b'/'))

unfoldable pub all_chars : (ℕ → Bool) → Text → Bool
all_chars test [] = true
all_chars test (c ∷ cs) = test c && all_chars test cs

-- `as_chunks::<2>`; the caller has refused an odd length.
unfoldable pub units_of_bytes : List ℕ → List ℕ
units_of_bytes [] = []
units_of_bytes (b ∷ []) = []
units_of_bytes (b ∷ c ∷ rest) = (b * 256 + c) ∷ units_of_bytes rest

unfoldable pub decode_shift : Text → Option Text
unfolding all_chars
decode_shift inner =
    if all_chars in_shift inner
    then (let standard = replace b',' b'/' inner in
        let padded = standard ++ replicate ((4 - length standard % 4) % 4) b'=' in
        and_then (base64_decode padded)
          λ bytes. if length bytes % 2 == 0 then decode_utf16 (units_of_bytes bytes) else none)
    else none

-- `find('-')`: what stands before the first dash, and what behind it.
unfoldable pub split_dash : Text → Option (Text × Text)
split_dash [] = none
split_dash (c ∷ cs) =
    if c == b'-' then some ([], cs) else Option.map (λ p. (c ∷ p.0, p.1)) (split_dash cs)

-- What the text between `&` and `-` stands for.
unfoldable pub segment : Text → Text
unfolding decode_shift
segment inner =
    if is_empty inner
    then b'&' ∷ []
    else elim (decode_shift inner) [ some decoded ↦ decoded | none ↦ b'&' ∷ (inner ++ b'-' ∷ []) ]

-- The loop from position `i` on; each round consumes a character at least, so the length of the
-- input is fuel enough.
decode_loop : ℕ → Text → Text
unfolding segment split_dash
decode_loop zero input = []
decode_loop (suc fuel) [] = []
decode_loop (suc fuel) (c ∷ cs) =
    let next = decode_loop fuel cs in
    let shift : Text = elim (split_dash cs) [
      | none ↦ c ∷ cs
      | some (inner, rest) ↦ segment inner ++ decode_loop fuel rest
    ] in
    if c == b'&' then shift else c ∷ next

unfoldable pub decode_modified_utf7 : Text → Text
unfolding decode_loop
decode_modified_utf7 input = decode_loop (length input) input
