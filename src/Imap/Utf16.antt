-- ===== src/Imap/Utf16.antt =====
-- `char::encode_utf16` and `char::decode_utf16` of Rust's standard library, as
-- crates/mailcore/src/sync/imap/utf7.rs uses them, and that decoding undoes encoding.
use mailclient.Base.{
  ℕ, ◌+◌, ◌-◌, ◌*◌, ◌/◌, ◌%◌, ◌<◌, ◌≡◌, refl, true, false, Option, none, some, List, [], ◌∷◌, ◌++◌,
  ltb, if◌then◌else◌, All, arith, inl, inr, append_assoc, ap, ◌∙◌, Bool-cases,
}
use mathlib.Core.Option
use mailclient.Base.Text.{Text, in_range, IsScalar}

pub encode_char : ℕ → List ℕ
encode_char c =
    if ltb c 0x10000
    then c ∷ []
    else (0xd800 + (c - 0x10000) / 1024) ∷ (0xdc00 + (c - 0x10000) % 1024) ∷ []

unfoldable pub encode_utf16 : Text → List ℕ
unfolding encode_char
encode_utf16 [] = []
encode_utf16 (c ∷ cs) = encode_char c ++ encode_utf16 cs

-- An unpaired surrogate is an error, which ends the whole decoding.
unfoldable pub decode_utf16 : List ℕ → Option Text
decode_utf16 [] = some []
decode_utf16 (u ∷ []) = if in_range 0xd800 0xdfff u then none else some (u ∷ [])
decode_utf16 (u ∷ v ∷ us) =
    let single = Option.map (λ s. u ∷ s) (decode_utf16 (v ∷ us)) in
    let pair =
      Option.map (λ s. (0x10000 + (u - 0xd800) * 1024 + (v - 0xdc00)) ∷ s) (decode_utf16 us) in
    if in_range 0xd800 0xdfff u
    then (if in_range 0xd800 0xdbff u
        then (if in_range 0xdc00 0xdfff v then pair else none)
        else none)
    else single

high_surrogate : (k : ℕ) → k < 1024 → in_range 0xd800 0xdfff (0xd800 + k) ≡ true
high_surrogate k h = ground arith

high_leads : (k : ℕ) → k < 1024 → in_range 0xd800 0xdbff (0xd800 + k) ≡ true
high_leads k h = ground arith

low_surrogate : (k : ℕ) → k < 1024 → in_range 0xdc00 0xdfff (0xdc00 + k) ≡ true
low_surrogate k h = ground arith

decode-single :
    (u : ℕ) (us : List ℕ) (s : Text)
    → in_range 0xd800 0xdfff u ≡ false
    → decode_utf16 us ≡ some s
    → decode_utf16 (u ∷ us) ≡ some (u ∷ s)
unfolding decode_utf16
decode-single u [] s h e = rw h (ground arith)
decode-single u (v ∷ us) s h e = rw (h, e)

decode-pair :
    (n : ℕ) (us : List ℕ) (s : Text)
    → n < 0x100000
    → decode_utf16 us ≡ some s
    → decode_utf16 ((0xd800 + n / 1024) ∷ (0xdc00 + n % 1024) ∷ us) ≡ some ((0x10000 + n) ∷ s)
unfolding decode_utf16
decode-pair n us s h e =
    rw
      (
        e,
        high_surrogate (n / 1024) (omega arith),
        high_leads (n / 1024) (omega arith),
        low_surrogate (n % 1024) (omega arith),
      )
      (ap (λ d. some (d ∷ s)) (omega arith))

pub decode-encode_utf16 : (s : Text) → All IsScalar s → decode_utf16 (encode_utf16 s) ≡ some s
unfolding encode_utf16
decode-encode_utf16 [] h = unfold decode_utf16 in refl
decode-encode_utf16 (c ∷ cs) (h, hs) = elim (Bool-cases (ltb c 0x10000)) [
  | inl low ↦
      rw (low, encode_char)
        (decode-single c (encode_utf16 cs) cs (ground arith) (decode-encode_utf16 cs hs))
  | inr high ↦
      rw (high, encode_char)
        (decode-pair (c - 0x10000) (encode_utf16 cs) cs (ground arith) (decode-encode_utf16 cs hs)
          ∙ ap (λ d. some (d ∷ cs)) (ground arith))
]

-- Every unit fits 16 bits.
pub encode_utf16-lt : (s : Text) → All IsScalar s → All (λ u. u < 0x10000) (encode_utf16 s)
unfolding encode_utf16
encode_utf16-lt [] h = tt
encode_utf16-lt (c ∷ cs) (inl low, hs) = ground (arith, encode_utf16-lt cs hs)
encode_utf16-lt (c ∷ cs) (inr high, hs) = ground (arith, encode_utf16-lt cs hs)

pub encode_utf16-append : (s t : Text) → encode_utf16 (s ++ t) ≡ encode_utf16 s ++ encode_utf16 t
unfolding encode_utf16
encode_utf16-append [] t = refl
encode_utf16-append (c ∷ cs) t = rw (encode_utf16-append cs t, append_assoc)
