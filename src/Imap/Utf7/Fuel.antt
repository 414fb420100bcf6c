-- ===== src/Imap/Utf7/Fuel.antt =====
-- The decoder's loop ends: the length of its input is fuel enough.
use mailclient.Base.{
  ℕ, zero, suc, ◌≤◌, ◌≡◌, refl, none, some, [], ◌∷◌, ◌++◌, ◌==◌, if◌then◌else◌, length, arith, ap,
  Bool-cases, Option-cases, inl, inr,
}
use mailclient.Base.Text.{Text}
use mailclient.Imap.Utf7.{decode_loop, decode_modified_utf7, segment, split_dash}

split_dash-shorter :
    (s : Text) {inner rest : Text}
    → split_dash s ≡ some (inner, rest)
    → suc (length rest) ≤ length s
unfolding split_dash
split_dash-shorter [] e = cc
split_dash-shorter (c ∷ cs) {inner} {rest} e = elim (Bool-cases (c == b'-')) [
  | inl dash ↦ ground arith
  | inr other ↦ elim (Option-cases (split_dash cs)) [
    | inl gone ↦ ground arith
    | inr ((i, r), e') ↦ ground (arith, split_dash-shorter cs {inner = i} {rest = r} e')
  ]
]

-- One round of the loop, with `go` for the rounds after it.
abbrev round : (Text → Text) → ℕ → Text → Text
round go c cs =
    if c == b'&'
    then (elim (split_dash cs) [ none ↦ c ∷ cs | some (inner, rest) ↦ segment inner ++ go rest ])
    else c ∷ go cs

round-eq :
    (go go' : Text → Text) (c : ℕ) (cs : Text)
    → ((s : Text) → length s ≤ length cs → go s ≡ go' s)
    → round go c cs ≡ round go' c cs
round-eq go go' c cs same = elim (Bool-cases (c == b'&')) [
  | inr other ↦ rw (other) (ap (λ (s : Text). c ∷ s) (same cs (omega arith)))
  | inl amp ↦ elim (Option-cases (split_dash cs)) [
    | inl gone ↦ rw (amp, gone) refl
    | inr ((inner, rest), e) ↦
        rw (amp, e)
          (ap (λ (s : Text). segment inner ++ s)
            (same rest (omega (arith, split_dash-shorter cs e))))
  ]
]

enough_fuel : (f g : ℕ) (s : Text) → length s ≤ f → length s ≤ g → decode_loop f s ≡ decode_loop g s
unfolding decode_loop
enough_fuel zero zero s h h' = refl
enough_fuel zero (suc g) [] h h' = refl
enough_fuel zero (suc g) (c ∷ cs) h h' = absurd (omega arith)
enough_fuel (suc f) zero [] h h' = refl
enough_fuel (suc f) zero (c ∷ cs) h h' = absurd (omega arith)
enough_fuel (suc f) (suc g) [] h h' = refl
enough_fuel (suc f) (suc g) (c ∷ cs) h h' =
    round-eq (decode_loop f) (decode_loop g) c cs
      (λ s short. enough_fuel f g s (omega arith) (omega arith))

-- The decoder meets its loop's equation on every input: a character that is no ampersand is kept,
-- an ampersand without a dash behind it keeps the rest as it is, and one with a dash gives what
-- the text up to the dash stands for; decoding then goes on behind what was read.
pub decode_modified_utf7-loop :
    (c : ℕ) (cs : Text)
    → (decode_modified_utf7 [] ≡ [])
      × (decode_modified_utf7 (c ∷ cs) ≡ round decode_modified_utf7 c cs)
unfolding decode_modified_utf7 decode_loop
decode_modified_utf7-loop c cs = (
  refl,
  round-eq (decode_loop (length cs)) decode_modified_utf7 c cs
      (λ s short. enough_fuel (length cs) (length s) s short (omega arith)),
)
