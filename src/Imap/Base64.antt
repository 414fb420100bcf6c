-- ===== src/Imap/Base64.antt =====
-- `base64_encode` and `base64_decode` of crates/mailcore/src/sync/imap/utf7.rs. A byte is a number
-- below 256, and the bits that a loop ors into `n` at its own place are added to it.
pub mod RoundTrip
use mailclient.Base.{
  ℕ, ◌+◌, ◌-◌, ◌*◌, ◌/◌, ◌%◌, ◌^◌, ◌≡◌, refl, Option, none, some, List, [], ◌∷◌, ◌++◌, map, ◌==◌,
  if◌then◌else◌, get_or, and_then,
}
use mathlib.Core.Option
use mailclient.Base.Text.{Text, codes, in_range}

abbrev pub b64_alphabet : List ℕ
b64_alphabet = codes "ABCDEFGHIJKLMNOPQRSTUVWXYZabcdefghijklmnopqrstuvwxyz0123456789+/"

-- The digit of place `k`: `B64_ALPHABET[((n >> (18 - 6 * k)) & 63)]`.
digit : ℕ → ℕ → ℕ
digit n k = get_or b64_alphabet ((n / 2 ^ (18 - 6 * k)) % 64) 0

-- One chunk of `bytes.chunks(3)` with its padding.
unfoldable pub base64_encode : List ℕ → Text
unfolding digit
base64_encode [] = []
base64_encode (a ∷ []) = let n = a * 2 ^ 16 in digit n 0 ∷ digit n 1 ∷ b'=' ∷ b'=' ∷ []
base64_encode (a ∷ b ∷ []) =
    let n = a * 2 ^ 16 + b * 2 ^ 8 in digit n 0 ∷ digit n 1 ∷ digit n 2 ∷ b'=' ∷ []
base64_encode (a ∷ b ∷ c ∷ rest) =
    let n = a * 2 ^ 16 + b * 2 ^ 8 + c in
    digit n 0 ∷ digit n 1 ∷ digit n 2 ∷ digit n 3 ∷ base64_encode rest

-- The value of a digit: the loop stops at `=` and fails at any other character.
pub data Digit : Type 0 where
  value : ℕ → Digit
  padding stray : Digit

unfoldable pub digit_of : ℕ → Digit
digit_of b =
    if in_range b'A' b'Z' b
    then value (b - b'A')
    else if in_range b'a' b'z' b
    then value (b - b'a' + 26)
    else if in_range b'0' b'9' b
    then value (b - b'0' + 52)
    else if b == b'+'
    then value 62
    else if b == b'/'
    then value 63
    else if b == b'='
    then padding
    else stray

pub values : Text → Option (List ℕ)
values [] = some []
values (c ∷ cs) =
    let rest = values cs in
    elim (digit_of c) [
      | value v ↦ Option.map (λ vs. v ∷ vs) rest
      | padding ↦ some []
      | stray ↦ none
    ]

-- One chunk of `vals.chunks(4)`.
pub bytes_of : List ℕ → Option (List ℕ)
bytes_of [] = some []
bytes_of (v ∷ []) = none
bytes_of (v ∷ w ∷ []) = let n = v * 2 ^ 18 + w * 2 ^ 12 in some ((n / 2 ^ 16) % 256 ∷ [])
bytes_of (v ∷ w ∷ x ∷ []) =
    let n = v * 2 ^ 18 + w * 2 ^ 12 + x * 2 ^ 6 in
    some ((n / 2 ^ 16) % 256 ∷ (n / 2 ^ 8) % 256 ∷ [])
bytes_of (v ∷ w ∷ x ∷ y ∷ rest) =
    let n = v * 2 ^ 18 + w * 2 ^ 12 + x * 2 ^ 6 + y in
    Option.map (λ bs. (n / 2 ^ 16) % 256 ∷ (n / 2 ^ 8) % 256 ∷ n % 256 ∷ bs) (bytes_of rest)

unfoldable pub base64_decode : Text → Option (List ℕ)
unfolding values bytes_of digit_of
base64_decode input = and_then (values input) bytes_of

light_work : base64_encode (codes "light work") ≡ codes "bGlnaHQgd29yaw=="
unfolding base64_encode
light_work = refl

work_light : base64_decode (codes "bGlnaHQgd29yaw==") ≡ some (codes "light work")
unfolding base64_decode
work_light = refl
