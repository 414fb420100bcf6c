-- ===== src/Imap/Utf7/Wire.antt =====
-- What an encoded name may hold on the wire, and which names are sent as they are.
use mailclient.Base.{
  ℕ, ◌≡◌, refl, true, ◌&&◌, not, List, [], ◌∷◌, ◌++◌, map, ◌==◌, All, All-append, arith, Bool-cases,
  inl, inr, append-nil, append_assoc,
}
use mailclient.Base.Text.{Text, replace, codes}
use mailclient.Imap.Utf16.{encode_utf16}
use mailclient.Imap.Base64.RoundTrip.{IsLetter, letter, sextets}
use mailclient.Imap.Utf7.{bytes_of_units, flush, is_printable, encode_loop, encode_modified_utf7}
use mailclient.Imap.Utf7.Shift.{wire, flush-wire, sextets-IsLetter, bytes_of_units-IsByte}

abbrev pub IsPrintable : ℕ → Type 0
IsPrintable c = is_printable c ≡ true

wire-IsPrintable : (s : Text) → All IsLetter s → All IsPrintable (replace b'/' b',' s)
unfolding replace
wire-IsPrintable [] h = tt
wire-IsPrintable (c ∷ s) (h, hs) = (ground (arith, h.allowed), wire-IsPrintable s hs)

flush-IsPrintable : (us : List ℕ) → All IsPrintable (flush us)
flush-IsPrintable [] = unfold flush in tt
flush-IsPrintable (u ∷ us) =
    let bs = bytes_of_units (u ∷ us) in
    rw (flush-wire (u ∷ us) refl) (
      refl,
      All-append _ (wire bs) (b'-' ∷ [])
          (wire-IsPrintable (map letter (sextets bs))
            (sextets-IsLetter bs (bytes_of_units-IsByte (u ∷ us))))
          (refl, tt),
    )

encode_loop-IsPrintable :
    (out : Text) (run : List ℕ) (s : Text)
    → All IsPrintable out
    → All IsPrintable (encode_loop out run s)
unfolding encode_loop
encode_loop-IsPrintable out run [] h = All-append _ out (flush run) h (flush-IsPrintable run)
encode_loop-IsPrintable out run (c ∷ cs) h = elim (Bool-cases (c == b'&')) [
  | inl amp ↦ rw amp (
      encode_loop-IsPrintable (out ++ flush run ++ codes "&-") [] cs
        (extended (codes "&-") (refl, (refl, tt))))
  | inr other ↦ elim (Bool-cases (is_printable c)) [
    | inl plain ↦
        rw (other, plain)
          (encode_loop-IsPrintable (out ++ flush run ++ c ∷ []) [] cs
            (extended (c ∷ []) (plain, tt)))
    | inr shifted ↦
        rw (other, shifted) (encode_loop-IsPrintable out (run ++ encode_utf16 (c ∷ [])) cs h)
  ]
]
  where
    extended : (t : Text) → All IsPrintable t → All IsPrintable (out ++ flush run ++ t)
    extended t ht =
        All-append _ (out ++ flush run) t (All-append _ out (flush run) h (flush-IsPrintable run))
          ht

-- The wire speaks ASCII: whatever the name, its encoding holds printable ASCII characters only.
pub encode_modified_utf7-IsPrintable : (s : Text) → All IsPrintable (encode_modified_utf7 s)
unfolding encode_modified_utf7
encode_modified_utf7-IsPrintable s = encode_loop-IsPrintable [] [] s tt

-- A character that is sent as it is.
abbrev pub IsPlain : ℕ → Type 0
IsPlain c = (is_printable c && not (c == b'&')) ≡ true

encode_loop-plain : (out s : Text) → All IsPlain s → encode_loop out [] s ≡ out ++ s
unfolding encode_loop flush
encode_loop-plain out [] h = refl
encode_loop-plain out (c ∷ cs) (h, hs) = ground (
  arith,
  encode_loop-plain (out ++ [] ++ c ∷ []) cs hs,
  append-nil out,
  append_assoc out (c ∷ []) cs,
)

-- A name of printable ASCII without an ampersand, and so any hierarchy delimiter in it, is sent as
-- it is.
pub encode_modified_utf7-plain : (s : Text) → All IsPlain s → encode_modified_utf7 s ≡ s
unfolding encode_modified_utf7
encode_modified_utf7-plain s h = encode_loop-plain [] s h
