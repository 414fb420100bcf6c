-- ===== src/Imap/Utf7/Shift.antt =====
-- A shifted run on the wire: its form, and that `decode_shift` gives its characters back.
use mailclient.Base.{
  ℕ, zero, suc, ◌*◌, ◌%◌, ◌<◌, ◌≡◌, refl, true, false, some, List, [], ◌∷◌, ◌++◌, map, ◌==◌,
  if◌then◌else◌, is_empty, length, replicate, All, arith, ap,
}
use mailclient.Base.Text.{Text, IsScalar, replace, trim_end_matches}
use mailclient.Imap.Utf16.{encode_utf16, decode_utf16, decode-encode_utf16, encode_utf16-lt}
use mailclient.Imap.Base64.{base64_encode}
use mailclient.Imap.Base64.RoundTrip.{
  IsByte, letter, sextets, pads, encode-letters, sextets-lt, IsLetter, letter-IsLetter,
  decode-letters,
}
use mailclient.Imap.Utf7.{
  bytes_of_units, units_of_bytes, flush, in_shift, all_chars, decode_shift, split_dash, segment,
}

letters-IsLetter : (vs : List ℕ) → All (λ v. v < 64) vs → All IsLetter (map letter vs)
letters-IsLetter [] h = tt
letters-IsLetter (v ∷ vs) (h, hs) = (letter-IsLetter v h, letters-IsLetter vs hs)

replace-append : (a b : ℕ) (s t : Text) → replace a b (s ++ t) ≡ replace a b s ++ replace a b t
unfolding replace
replace-append a b [] t = refl
replace-append a b (c ∷ s) t =
    ap (λ (x : Text). (if c == a then b else c) ∷ x) (replace-append a b s t)

replace-pads : (k : ℕ) → replace b'/' b',' (replicate k b'=') ≡ replicate k b'='
unfolding replace
replace-pads zero = refl
replace-pads (suc k) = ap (λ (x : Text). b'=' ∷ x) (replace-pads k)

-- Back and forth again, as no letter is a comma.
replace-replace : (s : Text) → All IsLetter s → replace b',' b'/' (replace b'/' b',' s) ≡ s
unfolding replace
replace-replace [] h = refl
replace-replace (c ∷ s) (h, hs) = ground (arith, h.no_comma, replace-replace s hs)

abbrev comma_for_slash : ℕ → ℕ
comma_for_slash c = if c == b'/' then b',' else c

trim-pads : (k : ℕ) → trim_end_matches b'=' (replicate k b'=') ≡ []
unfolding trim_end_matches
trim-pads zero = refl
trim-pads (suc k) = rw (trim-pads k)

trim-letters :
    (s : Text) (k : ℕ)
    → All IsLetter s
    → trim_end_matches b'=' (replace b'/' b',' s ++ replicate k b'=') ≡ replace b'/' b',' s
unfolding trim_end_matches replace
trim-letters [] k h = trim-pads k
trim-letters (c ∷ s) k (h, hs) = ground (arith, h.no_pad, trim-letters s k hs)

-- What stands on the wire for some bytes.
abbrev pub wire : List ℕ → Text
wire bs = replace b'/' b',' (map letter (sextets bs))

pub sextets-IsLetter : (bs : List ℕ) → All IsByte bs → All IsLetter (map letter (sextets bs))
sextets-IsLetter bs h = letters-IsLetter (sextets bs) (sextets-lt bs h)

trimmed-wire :
    (bs : List ℕ)
    → All IsByte bs
    → trim_end_matches b'=' (replace b'/' b',' (base64_encode bs)) ≡ wire bs
trimmed-wire bs h =
    rw (encode-letters bs h, replace-append, replace-pads)
      (trim-letters (map letter (sextets bs)) (pads bs) (sextets-IsLetter bs h))

all_chars-wire : (s : Text) → All IsLetter s → all_chars in_shift (replace b'/' b',' s) ≡ true
unfolding all_chars replace
all_chars-wire [] h = refl
all_chars-wire (c ∷ s) (h, hs) = ground (arith, h.allowed, all_chars-wire s hs)

split_dash-letters :
    (s rest : Text)
    → All IsLetter s
    → split_dash (replace b'/' b',' s ++ b'-' ∷ rest) ≡ some (replace b'/' b',' s, rest)
unfolding split_dash replace
split_dash-letters [] rest h = refl
split_dash-letters (c ∷ s) rest (h, hs) = ground (arith, h.no_dash, split_dash-letters s rest hs)

pub bytes_of_units-IsByte : (us : List ℕ) → All IsByte (bytes_of_units us)
unfolding bytes_of_units
bytes_of_units-IsByte [] = tt
bytes_of_units-IsByte (u ∷ us) = (omega arith, (omega arith, bytes_of_units-IsByte us))

units_of_bytes-bytes_of_units :
    (us : List ℕ) → All (λ u. u < 0x10000) us → units_of_bytes (bytes_of_units us) ≡ us
unfolding units_of_bytes bytes_of_units
units_of_bytes-bytes_of_units [] h = refl
units_of_bytes-bytes_of_units (u ∷ us) (h, hs) = ground (arith, units_of_bytes-bytes_of_units us hs)

length-bytes_of_units : (us : List ℕ) → length (bytes_of_units us) ≡ 2 * length us
unfolding bytes_of_units
length-bytes_of_units [] = refl
length-bytes_of_units (u ∷ us) = omega (arith, length-bytes_of_units us)

even_length : (us : List ℕ) → (length (bytes_of_units us) % 2 == 0) ≡ true
even_length us = ground (arith, length-bytes_of_units us)

pub decode_shift-wire :
    (us : List ℕ)
    → All (λ u. u < 0x10000) us
    → decode_shift (wire (bytes_of_units us)) ≡ decode_utf16 us
unfolding decode_shift
decode_shift-wire us h =
    let bytes = bytes_of_units-IsByte us in
    let letters = sextets-IsLetter (bytes_of_units us) bytes in
    rw
      (
        all_chars-wire (map letter (sextets (bytes_of_units us))) letters,
        replace-replace (map letter (sextets (bytes_of_units us))) letters,
      )
      (rw (
        decode-letters (bytes_of_units us) _ bytes,
        even_length us,
        units_of_bytes-bytes_of_units us h,
      ))

pub flush-wire :
    (us : List ℕ) → is_empty us ≡ false → flush us ≡ b'&' ∷ (wire (bytes_of_units us) ++ b'-' ∷ [])
unfolding flush
flush-wire [] h = cc
flush-wire (u ∷ us) h =
    ap (λ (x : Text). b'&' ∷ (x ++ b'-' ∷ []))
      (trimmed-wire (bytes_of_units (u ∷ us)) (bytes_of_units-IsByte (u ∷ us)))

pub split_dash-wire :
    (us : List ℕ) (rest : Text)
    → split_dash (wire (bytes_of_units us) ++ b'-' ∷ rest) ≡ some (wire (bytes_of_units us), rest)
split_dash-wire us rest =
    split_dash-letters (map letter (sextets (bytes_of_units us))) rest
      (sextets-IsLetter (bytes_of_units us) (bytes_of_units-IsByte us))

is_empty-wire : (us : List ℕ) → is_empty us ≡ false → is_empty (wire (bytes_of_units us)) ≡ false
unfolding bytes_of_units replace
is_empty-wire [] h = cc
is_empty-wire (u ∷ []) h = refl
is_empty-wire (u ∷ v ∷ us) h = refl

pub is_empty-encode : (c : ℕ) (cs : Text) → is_empty (encode_utf16 (c ∷ cs)) ≡ false
unfolding encode_utf16
is_empty-encode c cs = ground arith

-- A run of characters, shifted, stands for itself.
pub segment-wire :
    (c : ℕ) (cs : Text)
    → All IsScalar (c ∷ cs)
    → segment (wire (bytes_of_units (encode_utf16 (c ∷ cs)))) ≡ c ∷ cs
unfolding segment
segment-wire c cs h = rw (
  is_empty-wire (encode_utf16 (c ∷ cs)) (is_empty-encode c cs),
  decode_shift-wire (encode_utf16 (c ∷ cs)) (encode_utf16-lt (c ∷ cs) h),
  decode-encode_utf16 (c ∷ cs) h,
)
