-- ===== src/Imap/Base64/RoundTrip.antt =====
-- `base64_decode` undoes `base64_encode`, with the padding replaced by any other.
use mailclient.Base.{
  ℕ, zero, suc, ◌+◌, ◌-◌, ◌*◌, ◌^◌, ◌/◌, ◌%◌, ◌<◌, ◌≡◌, ◌≢◌, refl, Bool, true, false, not, ◌&&◌,
  ◌||◌, some, List, [], ◌∷◌, ◌++◌, map, ◌==◌, get_or, replicate, All, arith, ap, and_left,
}
use mailclient.Base.Text.{is_ascii_alphanumeric}
use mailclient.Base.Range.{all_below, all_below-test}
use mailclient.Imap.Base64.{
  b64_alphabet, digit, base64_encode, Digit, value, padding, stray, digit_of, values, bytes_of,
  base64_decode,
}

abbrev pub IsByte : ℕ → Type 0
IsByte b = b < 256

abbrev pub letter : ℕ → ℕ
letter i = get_or b64_alphabet i 0

-- The six-bit values of a list of bytes.
abbrev pub sextets : List ℕ → List ℕ
sextets [] = []
sextets (a ∷ []) = a / 4 ∷ (a % 4 * 16) ∷ []
sextets (a ∷ b ∷ []) = a / 4 ∷ (a % 4 * 16 + b / 16) ∷ (b % 16 * 4) ∷ []
sextets (a ∷ b ∷ c ∷ rest) =
    a / 4 ∷ (a % 4 * 16 + b / 16) ∷ (b % 16 * 4 + c / 64) ∷ c % 64 ∷ sextets rest

-- How many `=` end the encoding.
abbrev pub pads : List ℕ → ℕ
pads [] = 0
pads (a ∷ []) = 2
pads (a ∷ b ∷ []) = 1
pads (a ∷ b ∷ c ∷ rest) = pads rest

digit-letter : (n k v : ℕ) → (n / 2 ^ (18 - 6 * k)) % 64 ≡ v → digit n k ≡ letter v
unfolding digit
digit-letter n k v e = ap letter e

pub encode-letters :
    (bs : List ℕ)
    → All IsByte bs
    → base64_encode bs ≡ map letter (sextets bs) ++ replicate (pads bs) b'='
unfolding base64_encode
encode-letters [] h = refl
encode-letters (a ∷ []) (ha, _) =
    let n = a * 65536 in
    cc (digit-letter n 0 (a / 4) (omega arith), digit-letter n 1 (a % 4 * 16) (omega arith))
encode-letters (a ∷ b ∷ []) (ha, (hb, _)) =
    let n = a * 65536 + b * 256 in
    cc (
      digit-letter n 0 (a / 4) (omega arith),
      digit-letter n 1 (a % 4 * 16 + b / 16) (omega arith),
      digit-letter n 2 (b % 16 * 4) (omega arith),
    )
encode-letters (a ∷ b ∷ c ∷ rest) (ha, (hb, (hc, hr))) =
    let n = a * 65536 + b * 256 + c in
    cc (
      digit-letter n 0 (a / 4) (omega arith),
      digit-letter n 1 (a % 4 * 16 + b / 16) (omega arith),
      digit-letter n 2 (b % 16 * 4 + c / 64) (omega arith),
      digit-letter n 3 (c % 64) (omega arith),
      encode-letters rest hr,
    )

pub sextets-lt : (bs : List ℕ) → All IsByte bs → All (λ v. v < 64) (sextets bs)
sextets-lt [] h = tt
sextets-lt (a ∷ []) h = omega arith
sextets-lt (a ∷ b ∷ []) h = omega arith
sextets-lt (a ∷ b ∷ c ∷ rest) (ha, (hb, (hc, hr))) =
    (omega arith, (omega arith, (omega arith, (omega arith, sextets-lt rest hr))))

pub bytes_of-sextets : (bs : List ℕ) → All IsByte bs → bytes_of (sextets bs) ≡ some bs
unfolding bytes_of
bytes_of-sextets [] h = refl
bytes_of-sextets (a ∷ []) h = ap (λ x. some (x ∷ [])) (omega arith)
bytes_of-sextets (a ∷ b ∷ []) h = ground arith
bytes_of-sextets (a ∷ b ∷ c ∷ rest) (ha, (hb, (hc, hr))) =
    rw (bytes_of-sextets rest hr) (ground arith)

is_value : ℕ → Digit → Bool
is_value i (value v) = i == v
is_value i _ = false

-- What every letter satisfies: it has its value, and is none of `=`, `,` and `-`.
letter_test : ℕ → Bool
letter_test i =
    is_value i (digit_of (letter i))
    && (not (letter i == b'=')
        && (not (letter i == b',')
            && (not (letter i == b'-')
                && (is_ascii_alphanumeric (letter i) || (letter i == b'+' || letter i == b'/')))))

letter_table : all_below 64 letter_test ≡ true
unfolding all_below letter_test digit_of is_value
letter_table = refl

letter_facts : (i : ℕ) → i < 64 → letter_test i ≡ true
letter_facts i h = all_below-test 64 letter_test i letter_table h

is_value-eq : (i : ℕ) (d : Digit) → is_value i d ≡ true → d ≡ value i
unfolding is_value
is_value-eq i (value v) h = ap value (ground arith)
is_value-eq i padding h = cc
is_value-eq i stray h = cc

pub digit_of-letter : (i : ℕ) → i < 64 → digit_of (letter i) ≡ value i
unfolding letter_test
digit_of-letter i h = is_value-eq i (digit_of (letter i)) (and_left _ _ (letter_facts i h))

-- The letters that the wire form may hold, and those that it gives a meaning of its own.
pub record IsLetter (c : ℕ) : Type 0 where
  pub no_pad : c ≢ b'='
  pub no_comma : c ≢ b','
  pub no_dash : c ≢ b'-'
  pub allowed : (is_ascii_alphanumeric c || (c == b'+' || c == b'/')) ≡ true

tested-IsLetter :
    (c : ℕ) (b : Bool)
    → (b
        && (not (c == b'=')
            && (not (c == b',')
                && (not (c == b'-') && (is_ascii_alphanumeric c || (c == b'+' || c == b'/'))))))
      ≡ true
    → IsLetter c
tested-IsLetter c b h = record {
  no_pad = λ e. ground arith;
  no_comma = λ e. ground arith;
  no_dash = λ e. ground arith;
  allowed = ground arith;
}

pub letter-IsLetter : (i : ℕ) → i < 64 → IsLetter (letter i)
letter-IsLetter i h =
    tested-IsLetter (letter i) (is_value i (digit_of (letter i)))
      (unfold letter_test in letter_facts i h)

values-pads : (k : ℕ) → values (replicate k b'=') ≡ some []
unfolding values digit_of
values-pads zero = refl
values-pads (suc k) = refl

pub values-letters :
    (vs : List ℕ) (k : ℕ)
    → All (λ v. v < 64) vs
    → values (map letter vs ++ replicate k b'=') ≡ some vs
unfolding values
values-letters [] k h = values-pads k
values-letters (v ∷ vs) k (h, hs) = rw (digit_of-letter v h, values) (rw (values-letters vs k hs))

-- Bytes survive the encoding under any number of trailing `=`.
pub decode-letters :
    (bs : List ℕ) (k : ℕ)
    → All IsByte bs
    → base64_decode (map letter (sextets bs) ++ replicate k b'=') ≡ some bs
unfolding base64_decode
decode-letters bs k h = rw (values-letters (sextets bs) k (sextets-lt bs h)) (bytes_of-sextets bs h)
