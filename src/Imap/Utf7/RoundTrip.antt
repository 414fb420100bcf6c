-- ===== src/Imap/Utf7/RoundTrip.antt =====
-- Decoding undoes encoding.
use mailclient.Base.{
  ℕ, zero, suc, ◌≤◌, ◌≡◌, refl, false, List, [], ◌∷◌, ◌++◌, ◌==◌, length, length-append, All,
  All-append, arith, ap, append-nil, append_assoc, sym, ◌∙◌, Bool-cases, inl, inr, ==_iff,
}
use mailclient.Base.Text.{Text, IsScalar, codes}
use mailclient.Imap.Utf16.{encode_utf16, encode_utf16-append}
use mailclient.Imap.Utf7.{
  bytes_of_units, flush, is_printable, encode_loop, encode_modified_utf7, decode_loop,
  decode_modified_utf7, segment, split_dash,
}
use mailclient.Imap.Utf7.Shift.{wire, flush-wire, split_dash-wire, segment-wire, is_empty-encode}

regroup :
    (out a b cs : Text)
    → ((o : Text) → encode_loop o [] cs ≡ o ++ encode_loop [] [] cs)
    → encode_loop ((out ++ a) ++ b) [] cs ≡ out ++ encode_loop (a ++ b) [] cs
regroup out a b cs h =
    h ((out ++ a) ++ b)
    ∙ (ap (λ (x : Text). x ++ encode_loop [] [] cs) (append_assoc out a b)
        ∙ (append_assoc out (a ++ b) (encode_loop [] [] cs) ∙ ap (◌++◌ out) (sym (h (a ++ b)))))

encode_loop-out :
    (out : Text) (run : List ℕ) (s : Text) → encode_loop out run s ≡ out ++ encode_loop [] run s
unfolding encode_loop
encode_loop-out out run [] = refl
encode_loop-out out run (c ∷ cs) = elim (Bool-cases (c == b'&')) [
  | inl amp ↦ rw amp (regroup out (flush run) (codes "&-") cs (λ o. encode_loop-out o [] cs))
  | inr other ↦ elim (Bool-cases (is_printable c)) [
    | inl plain ↦
        rw (other, plain) (regroup out (flush run) (c ∷ []) cs (λ o. encode_loop-out o [] cs))
    | inr shifted ↦ rw (other, shifted) (encode_loop-out out (run ++ encode_utf16 (c ∷ [])) cs)
  ]
]

decode-wire :
    (fuel c : ℕ) (cs rest r : Text)
    → All IsScalar (c ∷ cs)
    → ((g : ℕ) → length rest ≤ g → decode_loop g rest ≡ r)
    → length (b'&' ∷ (wire (bytes_of_units (encode_utf16 (c ∷ cs))) ++ b'-' ∷ []) ++ rest) ≤ fuel
    → decode_loop fuel (b'&' ∷ (wire (bytes_of_units (encode_utf16 (c ∷ cs))) ++ b'-' ∷ []) ++ rest)
      ≡ c ∷ cs ++ r
unfolding decode_loop
decode-wire zero c cs rest r h go fits = absurd (omega arith)
decode-wire (suc f) c cs rest r h go fits =
    let w = wire (bytes_of_units (encode_utf16 (c ∷ cs))) in
    rw
      (
        append_assoc w (b'-' ∷ []) rest,
        split_dash-wire (encode_utf16 (c ∷ cs)) rest,
        segment-wire c cs h,
      )
      (ap (◌++◌ (c ∷ cs)) (go f (omega (arith, length-append (w ++ b'-' ∷ []) rest))))

-- A shifted run in front of a text that decodes to `r`, whatever the fuel.
decode-flush :
    (fuel : ℕ) (t rest r : Text)
    → All IsScalar t
    → ((g : ℕ) → length rest ≤ g → decode_loop g rest ≡ r)
    → length (flush (encode_utf16 t) ++ rest) ≤ fuel
    → decode_loop fuel (flush (encode_utf16 t) ++ rest) ≡ t ++ r
unfolding flush encode_utf16
decode-flush fuel [] rest r h go fits = go fuel fits
decode-flush fuel (c ∷ cs) rest r h go fits =
    let us = encode_utf16 (c ∷ cs) in
    rw (flush-wire us (is_empty-encode c cs))
      (decode-wire fuel c cs rest r h go (rw (flush-wire us (is_empty-encode c cs)) at fits))

-- The text that `encode_loop` makes of a run and what follows it.
abbrev encoded : Text → Text → Text
encoded t s = encode_loop [] (encode_utf16 t) s

abbrev Decodes : Text → Text → Type 0
Decodes e r = (g : ℕ) → length e ≤ g → decode_loop g e ≡ r

Decodes-amp : (e r : Text) → Decodes e r → Decodes (b'&' ∷ b'-' ∷ e) (b'&' ∷ r)
unfolding decode_loop split_dash segment
Decodes-amp e r h zero fits = absurd (omega arith)
Decodes-amp e r h (suc g) fits = ap (λ (x : Text). b'&' ∷ x) (h g (omega arith))

Decodes-plain : (c : ℕ) (e r : Text) → (c == b'&') ≡ false → Decodes e r → Decodes (c ∷ e) (c ∷ r)
unfolding decode_loop
Decodes-plain c e r other h zero fits = absurd (omega arith)
Decodes-plain c e r other h (suc g) fits = rw (other, h g (omega arith))

Decodes-nil : Decodes [] []
unfolding decode_loop
Decodes-nil zero fits = refl
Decodes-nil (suc g) fits = refl

after_run :
    (t mid cs r : Text)
    → All IsScalar t
    → Decodes (mid ++ encoded [] cs) r
    → Decodes (encode_loop (flush (encode_utf16 t) ++ mid) [] cs) (t ++ r)
unfolding encode_utf16
after_run t mid cs r ht h =
    rw
      (
        encode_loop-out (flush (encode_utf16 t) ++ mid) [] cs,
        append_assoc (flush (encode_utf16 t)) mid (encode_loop [] [] cs),
      )
      (λ g fits. decode-flush g t (mid ++ encode_loop [] [] cs) r ht h fits)

encoded-Decodes : (t s : Text) → All IsScalar t → All IsScalar s → Decodes (encoded t s) (t ++ s)
unfolding encode_loop
encoded-Decodes t [] ht hs =
    rw (← append-nil (flush (encode_utf16 t)))
      (λ g fits. decode-flush g t [] [] ht Decodes-nil fits)
encoded-Decodes t (c ∷ cs) ht (hc, hs) = elim (Bool-cases (c == b'&')) [
  | inl amp ↦
      rw (amp, (==_iff c b'&').0 amp)
        (after_run t (codes "&-") cs (b'&' ∷ cs) ht
          (Decodes-amp (encoded [] cs) cs (encoded-Decodes [] cs tt hs)))
  | inr other ↦ elim (Bool-cases (is_printable c)) [
    | inl plain ↦
        rw (other, plain)
          (after_run t (c ∷ []) cs (c ∷ cs) ht
            (Decodes-plain c (encoded [] cs) cs other (encoded-Decodes [] cs tt hs)))
    | inr shifted ↦
        rw (other, shifted, ← encode_utf16-append t (c ∷ []), ← append_assoc t (c ∷ []) cs)
          (encoded-Decodes (t ++ c ∷ []) cs (All-append _ t (c ∷ []) ht (hc, tt)) hs)
  ]
]

-- A mailbox name of scalar values comes back from its wire form as it was.
pub decode-encode_modified_utf7 :
    (s : Text) → All IsScalar s → decode_modified_utf7 (encode_modified_utf7 s) ≡ s
unfolding decode_modified_utf7 encode_modified_utf7 encode_utf16
decode-encode_modified_utf7 s h =
    encoded-Decodes [] s tt h (length (encode_loop [] [] s)) (omega arith)
