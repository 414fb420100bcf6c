-- ===== src/Imap/Paths/Levels.antt =====
-- The levels of a folder path: trimmed, joined and split again.
use mailclient.Base.{
  ℕ, ◌≡◌, refl, ap, ◌∙◌, Bool, true, false, ◌&&◌, List, [], ◌∷◌, ◌++◌, ◌==◌, is_empty, map,
  Bool-cases, inl, inr, All, or_left, or_right, eq_self,
}
use mailclient.Base.Text.{Text, replace}
use mailclient.Base.Strings.{
  any-append, any, attach, trim, trim_start, trim_end, is_whitespace, join,
}
use mailclient.Imap.Paths.{split, any_text}

any-trim_end : (test : ℕ → Bool) (s : Text) → any test s ≡ false → any test (trim_end s) ≡ false
unfolding any trim_end
any-trim_end test [] h = refl
any-trim_end test (c ∷ cs) h = elim (Bool-cases (is_whitespace c && is_empty (trim_end cs))) [
  | inl gone ↦ rw (gone) refl
  | inr kept ↦ rw (kept) (
      rw
        (or_left (test c) (any test cs) h, any-trim_end test cs (or_right (test c) (any test cs) h))
        refl)
]

any-trim_start : (test : ℕ → Bool) (s : Text) → any test s ≡ false → any test (trim_start s) ≡ false
unfolding any trim_start
any-trim_start test [] h = refl
any-trim_start test (c ∷ cs) h = elim (Bool-cases (is_whitespace c)) [
  | inl space ↦ rw (space) (any-trim_start test cs (or_right (test c) (any test cs) h))
  | inr letter ↦ rw (letter) h
]

-- What a text does not hold, its trimmed form does not hold.
any-trim : (test : ℕ → Bool) (s : Text) → any test s ≡ false → any test (trim s) ≡ false
unfolding trim
any-trim test s h = any-trim_end test (trim_start s) (any-trim_start test s h)

trim_end-again : (s : Text) → trim_end (trim_end s) ≡ trim_end s
unfolding trim_end
trim_end-again [] = refl
trim_end-again (c ∷ cs) = elim (Bool-cases (is_whitespace c && is_empty (trim_end cs))) [
  | inl gone ↦ rw (gone) refl
  | inr kept ↦ rw (kept) (rw (trim_end-again cs, kept) refl)
]

-- No white space at the start.
abbrev pub Flush : Text → Type 0
Flush [] = Unit
Flush (c ∷ cs) = is_whitespace c ≡ false

trim_start-Flush : (s : Text) → Flush (trim_start s)
unfolding trim_start
trim_start-Flush [] = tt
trim_start-Flush (c ∷ cs) = elim (Bool-cases (is_whitespace c)) [
  | inl space ↦ rw (space) (trim_start-Flush cs)
  | inr letter ↦ rw (letter) letter
]

Flush-trim_start : (s : Text) → Flush s → trim_start s ≡ s
unfolding trim_start
Flush-trim_start [] h = refl
Flush-trim_start (c ∷ cs) h = rw (h) refl

Flush-trim_end : (s : Text) → Flush s → Flush (trim_end s)
unfolding trim_end
Flush-trim_end [] h = tt
Flush-trim_end (c ∷ cs) h = rw (h) h

trim-Flush : (s : Text) → Flush (trim s)
unfolding trim
trim-Flush s = Flush-trim_end (trim_start s) (trim_start-Flush s)

-- A text that ends in no white space.
abbrev pub Tight : Text → Type 0
Tight s = trim_end s ≡ s

trim-Tight : (s : Text) → Tight (trim s)
unfolding trim
trim-Tight s = trim_end-again (trim_start s)

pub trimmed_same : (s : Text) → Flush s → Tight s → trim s ≡ s
unfolding trim
trimmed_same s flush tight = ap trim_end (Flush-trim_start s flush) ∙ tight

split-attach :
    (d : ℕ) (s rest : Text)
    → any (λ c. c == d) s ≡ false
    → split d (s ++ d ∷ rest) ≡ s ∷ split d rest
unfolding any split attach
split-attach d [] rest h = rw (eq_self d) refl
split-attach d (c ∷ cs) rest h =
    rw
      (
        or_left (c == d) (any (λ c. c == d) cs) h,
        split-attach d cs rest (or_right (c == d) (any (λ c. c == d) cs) h),
      )
      refl

split-alone : (d : ℕ) (s : Text) → any (λ c. c == d) s ≡ false → split d s ≡ s ∷ []
unfolding any split attach
split-alone d [] h = refl
split-alone d (c ∷ cs) h =
    rw
      (
        or_left (c == d) (any (λ c. c == d) cs) h,
        split-alone d cs (or_right (c == d) (any (λ c. c == d) cs) h),
      )
      refl

-- The levels of a path, none of which holds the delimiter.
pub split-join :
    (d : ℕ) (s : Text) (ss : List Text)
    → All (λ t. any (λ c. c == d) t ≡ false) (s ∷ ss)
    → split d (join (d ∷ []) (s ∷ ss)) ≡ s ∷ ss
unfolding join
split-join d s [] (h, hs) = split-alone d s h
split-join d s (t ∷ ts) (h, hs) =
    split-attach d s (join (d ∷ []) (t ∷ ts)) h
    ∙ ap (λ (xs : List Text). s ∷ xs) (split-join d t ts hs)

abbrev pub None : (ℕ → Bool) → List Text → Type 0
None test = All (λ s. any test s ≡ false)

attach-None :
    (test : ℕ → Bool) (c : ℕ) (ss : List Text)
    → test c ≡ false
    → None test ss
    → None test (attach c ss)
unfolding any attach
attach-None test c [] h hs = (rw (h) refl, tt)
attach-None test c (s ∷ ss) h (h', hs) = (rw (h) h', hs)

pub split-None : (test : ℕ → Bool) (d : ℕ) (s : Text) → any test s ≡ false → None test (split d s)
unfolding any split
split-None test d [] h = (refl, tt)
split-None test d (c ∷ cs) h =
    let rest = split-None test d cs (or_right (test c) (any test cs) h) in
    elim (Bool-cases (c == d)) [
      | inl here ↦ rw (here) (refl, rest)
      | inr other ↦
          rw (other) (attach-None test c (split d cs) (or_left (test c) (any test cs) h) rest)
    ]

pub split-Free : (d : ℕ) (s : Text) → None (λ c. c == d) (split d s)
unfolding any split
split-Free d [] = (refl, tt)
split-Free d (c ∷ cs) = elim (Bool-cases (c == d)) [
  | inl here ↦ rw (here) (refl, split-Free d cs)
  | inr other ↦ rw (other) (attach-None (λ c. c == d) c (split d cs) other (split-Free d cs))
]

pub trim-None : (test : ℕ → Bool) (ss : List Text) → None test ss → None test (map trim ss)
trim-None test [] h = tt
trim-None test (s ∷ ss) (h, hs) = (any-trim test s h, trim-None test ss hs)

-- Levels as they stand in a normalized path.
abbrev pub Levels : List Text → Type 0
Levels = All (λ s. (is_empty s ≡ false) × Flush s × Tight s)

pub trim-Levels : (ss : List Text) → any_text is_empty (map trim ss) ≡ false → Levels (map trim ss)
unfolding any_text
trim-Levels [] h = tt
trim-Levels (s ∷ ss) h = (
  (or_left (is_empty (trim s)) (any_text is_empty (map trim ss)) h, trim-Flush s, trim-Tight s),
  trim-Levels ss (or_right (is_empty (trim s)) (any_text is_empty (map trim ss)) h),
)

pub trim-same : (ss : List Text) → Levels ss → map trim ss ≡ ss
trim-same [] h = refl
trim-same (s ∷ ss) ((there, flush, tight), hs) =
    rw (trimmed_same s flush tight, trim-same ss hs) refl

not_empty-append : (s r : Text) → is_empty r ≡ false → is_empty (s ++ r) ≡ false
not_empty-append [] r h = h
not_empty-append (c ∷ cs) r h = refl

never : (b : Bool) → (b && false) ≡ false
never true = refl
never false = refl

Flush-append : (s r : Text) → is_empty s ≡ false → Flush s → Flush (s ++ r)
Flush-append [] r there h = cc
Flush-append (c ∷ cs) r there h = h

Tight-append : (s r : Text) → is_empty r ≡ false → Tight r → Tight (s ++ r)
unfolding trim_end
Tight-append [] r there h = h
Tight-append (c ∷ cs) r there h =
    rw (Tight-append cs r there h, not_empty-append cs r there, never (is_whitespace c)) refl

pub join-there :
    (d : ℕ) (s : Text) (ss : List Text)
    → Levels (s ∷ ss)
    → (is_empty (join (d ∷ []) (s ∷ ss)) ≡ false)
      × Flush (join (d ∷ []) (s ∷ ss))
      × Tight (join (d ∷ []) (s ∷ ss))
unfolding join
join-there d s [] (level, hs) = level
join-there d s (t ∷ ts) ((there, flush, tight), hs) =
    let (there', flush', tight') = join-there d t ts hs in
    let rest = join (d ∷ []) (t ∷ ts) in
    (
      not_empty-append s (d ∷ rest) refl,
      Flush-append s (d ∷ rest) there flush,
      Tight-append s (d ∷ rest) refl (Tight-append (d ∷ []) rest there' tight'),
    )

pub any-join :
    (test : ℕ → Bool) (d : ℕ) (ss : List Text)
    → test d ≡ false
    → None test ss
    → any test (join (d ∷ []) ss) ≡ false
unfolding any join
any-join test d [] h hs = refl
any-join test d (s ∷ []) h (hs, _) = hs
any-join test d (s ∷ t ∷ ts) h (hs, rest) =
    rw (any-append test s (d ∷ join (d ∷ []) (t ∷ ts)), hs, h, any-join test d (t ∷ ts) h rest) refl

pub replace-none : (d : ℕ) (s : Text) → any (λ c. c == b'/') s ≡ false → replace b'/' d s ≡ s
unfolding any replace
replace-none d [] h = refl
replace-none d (c ∷ cs) h =
    rw
      (
        or_left (c == b'/') (any (λ c. c == b'/') cs) h,
        replace-none d cs (or_right (c == b'/') (any (λ c. c == b'/') cs) h),
      )
      refl

pub any-replace :
    (test : ℕ → Bool) (d : ℕ) (s : Text)
    → test d ≡ false
    → any test s ≡ false
    → any test (replace b'/' d s) ≡ false
unfolding any replace
any-replace test d [] h h' = refl
any-replace test d (c ∷ cs) h h' = elim (Bool-cases (c == b'/')) [
  | inl slash ↦ rw (slash, h) (any-replace test d cs h (or_right (test c) (any test cs) h'))
  | inr other ↦
      rw (other, or_left (test c) (any test cs) h')
        (any-replace test d cs h (or_right (test c) (any test cs) h'))
]

pub replaced :
    (d : ℕ) (s : Text) → (d == b'/') ≡ false → any (λ c. c == b'/') (replace b'/' d s) ≡ false
unfolding any replace
replaced d [] h = refl
replaced d (c ∷ cs) h = elim (Bool-cases (c == b'/')) [
  | inl slash ↦ rw (slash, h) (replaced d cs h)
  | inr other ↦ rw (other, other) (replaced d cs h)
]
