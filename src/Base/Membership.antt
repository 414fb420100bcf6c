-- ===== src/Base/Membership.antt =====
-- Membership in the lists that the operations on lists of numbers give.
use mailclient.Base.{
  ℕ, ◌≤◌, Option, none, some, All, Option-cases, zero, suc, ◌≡◌, refl, Bool, true, false, ◌&&◌,
  ◌||◌, List, [], ◌∷◌, ◌++◌, ◌==◌, leb, if◌then◌else◌, arith, take, drop, Bool-cases, inl, inr,
  ==_iff, ap,
}
use mailclient.Base.Order.{reverse, minimum, sort, insert_sorted, contains, filter}

contains-insert_sorted :
    (a x : ℕ) (xs : List ℕ) → contains a (insert_sorted x xs) ≡ ((x == a) || contains a xs)
unfolding contains insert_sorted
contains-insert_sorted a x [] = refl
contains-insert_sorted a x (y ∷ ys) = ground (arith, contains-insert_sorted a x ys)

pub contains-sort : (a : ℕ) (xs : List ℕ) → contains a (sort xs) ≡ contains a xs
unfolding contains sort
contains-sort a [] = refl
contains-sort a (x ∷ xs) = ground (arith, contains-insert_sorted a x (sort xs), contains-sort a xs)

at_most_other : (m x n : ℕ) → m ≤ (if leb x n then x else n) → m ≤ n
at_most_other m x n h = ground arith

pub contains-append :
    (a : ℕ) (xs ys : List ℕ) → contains a (xs ++ ys) ≡ (contains a xs || contains a ys)
unfolding contains
contains-append a [] ys = refl
contains-append a (x ∷ xs) ys = ground (arith, contains-append a xs ys)

pub contains-take-drop :
    (a n : ℕ) (xs : List ℕ) → (contains a (take n xs) || contains a (drop n xs)) ≡ contains a xs
unfolding contains
contains-take-drop a zero xs = refl
contains-take-drop a (suc n) [] = refl
contains-take-drop a (suc n) (x ∷ xs) = ground (arith, contains-take-drop a n xs)

pub contains-filter :
    (a : ℕ) (test : ℕ → Bool) (xs : List ℕ)
    → contains a (filter test xs) ≡ (contains a xs && test a)
unfolding contains filter
contains-filter a test [] = refl
contains-filter a test (x ∷ xs) =
    let same : (x == a) ≡ true → test x ≡ test a = λ h. ap test ((==_iff x a).0 h) in
    elim (Bool-cases (x == a)) [
      | inl hit ↦ ground (arith, same hit, contains-filter a test xs)
      | inr miss ↦ ground (arith, contains-filter a test xs)
    ]

pub filter_all : (test : ℕ → Bool) (xs : List ℕ) → ((a : ℕ) → test a ≡ true) → filter test xs ≡ xs
unfolding filter
filter_all test [] h = refl
filter_all test (x ∷ xs) h = rw (h x) (ap (λ ys. x ∷ ys) (filter_all test xs h))

pub filter_none : (test : ℕ → Bool) (xs : List ℕ) → ((a : ℕ) → test a ≡ false) → filter test xs ≡ []
unfolding filter
filter_none test [] h = refl
filter_none test (x ∷ xs) h = rw (h x) (filter_none test xs h)

-- Below what is named, if anything is.
abbrev pub AtMost : ℕ → Option ℕ → Type 0
AtMost m none = Unit
AtMost m (some n) = m ≤ n

pub minimum-AtMost : (m : ℕ) (xs : List ℕ) → AtMost m (minimum xs) → All (λ x. m ≤ x) xs
unfolding minimum
minimum-AtMost m [] h = tt
minimum-AtMost m (x ∷ xs) h = elim (Option-cases (minimum xs)) [
  | inl e ↦ (rw (e) at h, minimum-AtMost m xs (rw (e) tt))
  | inr (n, e) ↦
      (let small : m ≤ (if leb x n then x else n) = rw (e) at h in
        (ground arith, minimum-AtMost m xs (rw (e) (at_most_other m x n small))))
]

pub contains-reverse : (a : ℕ) (xs : List ℕ) → contains a (reverse xs) ≡ contains a xs
unfolding reverse contains
contains-reverse a [] = refl
contains-reverse a (x ∷ xs) =
    ground (arith, contains-append a (reverse xs) (x ∷ []), contains-reverse a xs)
