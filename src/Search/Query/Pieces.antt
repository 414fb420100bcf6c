-- ===== src/Search/Query/Pieces.antt =====
-- How the parser reads the pieces of a printed term, whatever stands behind them.
use mailclient.Base.{
  ℕ, suc, ◌≡◌, refl, Bool, false, none, List, [], ◌∷◌, ◌++◌, ◌==◌, map, length, arith, Bool-cases,
  inl, inr, All, or_left, or_right,
}
use mailclient.Base.Lists.{take}
use mailclient.Base.Order.{filter}
use mailclient.Base.Text.{Text, codes}
use mailclient.Base.Strings.{
  any, is_whitespace, split_at_first, split_once, split_whitespace, attach, starts_word, same_text,
  to_ascii_lowercase, lower, eq_ignore_ascii_case,
}
use mailclient.Search.Query.{is_mark, clean, strip_name, strip_field, field_name}

-- The end of the query, or the space before the next term.
pub data Gap : Text → Type 0 where
  ends : Gap []
  goes : (r : Text) → Gap (b' ' ∷ r)

abbrev pub is_colon : ℕ → Bool
is_colon c = c == b':'

pub any-head : (test : ℕ → Bool) (c : ℕ) (cs : Text) → any test (c ∷ cs) ≡ false → test c ≡ false
unfolding any
any-head test c cs h = or_left _ _ h

any-tail : (test : ℕ → Bool) (c : ℕ) (cs : Text) → any test (c ∷ cs) ≡ false → any test cs ≡ false
unfolding any
any-tail test c cs h = or_right _ _ h

pub not_quote : (c : ℕ) (cs : Text) → any is_mark (c ∷ cs) ≡ false → (c == b'"') ≡ false
not_quote c cs h = or_left _ _ (any-head is_mark c cs h)

pub split_word :
    (w : Text) {rest : Text}
    → any is_whitespace w ≡ false
    → Gap rest
    → split_at_first is_whitespace (w ++ rest) ≡ (w, rest)
unfolding any split_at_first is_whitespace
split_word [] h ends = refl
split_word [] h (goes r) = refl
split_word (c ∷ cs) {rest} h gap =
    rw
      (
        any-head is_whitespace c cs h,
        split_word cs {rest = rest} (any-tail is_whitespace c cs h) gap,
      )
      refl

pub split_quoted :
    (t rest : Text)
    → any is_mark t ≡ false
    → split_at_first (λ c. c == b'"') (t ++ b'"' ∷ rest) ≡ (t, b'"' ∷ rest)
unfolding any split_at_first
split_quoted [] rest h = refl
split_quoted (c ∷ cs) rest h =
    rw (not_quote c cs h, split_quoted cs rest (any-tail is_mark c cs h)) refl

pub split_once-none : (w : Text) → any is_colon w ≡ false → split_once b':' w ≡ none
unfolding any split_once
split_once-none [] h = refl
split_once-none (c ∷ cs) h =
    rw (any-head is_colon c cs h, split_once-none cs (any-tail is_colon c cs h)) refl

pub clean_same : (w : Text) → any is_mark w ≡ false → clean w ≡ w
unfolding any clean filter
clean_same [] h = refl
clean_same (c ∷ cs) h = rw (any-head is_mark c cs h, clean_same cs (any-tail is_mark c cs h)) refl

abbrev Unmarked : List Text → Type 0
Unmarked = All (λ w. any is_mark w ≡ false)

attach-Unmarked :
    (c : ℕ) (ws : List Text) → is_mark c ≡ false → Unmarked ws → Unmarked (attach c ws)
unfolding any attach
attach-Unmarked c [] h hs = (rw (h) refl, tt)
attach-Unmarked c (w ∷ ws) h (hw, hs) = (rw (h) hw, hs)

split_whitespace-Unmarked : (s : Text) → any is_mark s ≡ false → Unmarked (split_whitespace s)
unfolding any split_whitespace
split_whitespace-Unmarked [] h = tt
split_whitespace-Unmarked (c ∷ cs) h =
    let rest = split_whitespace-Unmarked cs (any-tail is_mark c cs h) in
    let unmarked = any-head is_mark c cs h in
    elim (Bool-cases (is_whitespace c)) [
      | inl space ↦ rw (space) rest
      | inr letter ↦ elim (Bool-cases (starts_word cs)) [
        | inl more ↦ rw (letter, more) (attach-Unmarked c (split_whitespace cs) unmarked rest)
        | inr alone ↦ rw (letter, alone) (rw (unmarked) refl, rest)
      ]
    ]

clean_all : (ws : List Text) → Unmarked ws → map clean ws ≡ ws
clean_all [] h = refl
clean_all (w ∷ ws) (hw, hs) = rw (clean_same w hw, clean_all ws hs) refl

pub clean_words :
    (s : Text) → any is_mark s ≡ false → map clean (split_whitespace s) ≡ split_whitespace s
clean_words s h = clean_all (split_whitespace s) (split_whitespace-Unmarked s h)

-- A word without a colon, in lower case or not, is no field's name.
no_name :
    (ls w : Text) {rest : Text}
    → any (λ c. c == b' ') ls ≡ false
    → any is_colon w ≡ false
    → Gap rest
    → same_text (to_ascii_lowercase (take (suc (length ls)) (w ++ rest))) (ls ++ b':' ∷ []) ≡ false
unfolding any same_text to_ascii_lowercase lower
no_name [] [] h h' ends = refl
no_name [] [] h h' (goes r) = refl
no_name [] (c ∷ cs) h h' gap = ground (arith, any-head is_colon c cs h')
no_name (l ∷ ls) [] h h' ends = refl
no_name (l ∷ ls) [] h h' (goes r) = ground (arith, any-head (λ c. c == b' ') l ls h)
no_name (l ∷ ls) (c ∷ cs) {rest} h h' gap = ground (
  arith,
  no_name ls cs {rest = rest} (any-tail (λ c. c == b' ') l ls h) (any-tail is_colon c cs h') gap,
)

not_stripped :
    (name ls w : Text) {rest : Text}
    → name ≡ ls ++ b':' ∷ []
    → to_ascii_lowercase name ≡ name
    → length name ≡ suc (length ls)
    → any (λ c. c == b' ') ls ≡ false
    → any is_colon w ≡ false
    → Gap rest
    → strip_name name (w ++ rest) ≡ none
unfolding strip_name eq_ignore_ascii_case
not_stripped name ls w {rest} e low long h h' gap =
    rw (low, long, e, no_name ls w {rest = rest} h h' gap) refl

pub no_field :
    (w : Text) {rest : Text} → any is_colon w ≡ false → Gap rest → strip_field (w ++ rest) ≡ none
unfolding any strip_field to_ascii_lowercase lower field_name
no_field w {rest} h gap =
    rw
      (
        strip_field,
        not_stripped (codes "from:") (codes "from") w {rest = rest} refl refl refl refl h gap,
        not_stripped (codes "to:") (codes "to") w {rest = rest} refl refl refl refl h gap,
        not_stripped (codes "subject:") (codes "subject") w {rest = rest} refl refl refl refl h gap,
      )
      refl
