-- ===== src/Base/Sorted.antt =====
-- Sorted lists of numbers, and the first elements of a list that descends.
use mailclient.Base.{
  ℕ, zero, suc, ◌≤◌, ◌<◌, ◌≡◌, refl, ◌∙◌, Bool, false, ◌&&◌, List, [], ◌∷◌, ◌++◌, ltb, leb, leb→le,
  All, All-mono, Bool-cases, inl, inr, arith, take,
}
use mailclient.Base.Order.{sort, insert_sorted, contains, filter, reverse}
use mailclient.Base.Membership.{contains-sort, contains-filter, contains-append}
use mailclient.Base.Table.{count_where}

-- Nothing smaller behind.
abbrev pub IsSorted : List ℕ → Type 0
IsSorted [] = Unit
IsSorted (x ∷ xs) = All (λ y. x ≤ y) xs × IsSorted xs

insert-All :
    (m x : ℕ) (xs : List ℕ) → m ≤ x → All (λ y. m ≤ y) xs → All (λ y. m ≤ y) (insert_sorted x xs)
unfolding insert_sorted
insert-All m x [] le h = (le, tt)
insert-All m x (y ∷ ys) le (h, hs) = elim (Bool-cases (leb x y)) [
  | inl first ↦ rw (first) (le, (h, hs))
  | inr later ↦ rw (later) (h, insert-All m x ys le hs)
]

insert-IsSorted : (x : ℕ) (xs : List ℕ) → IsSorted xs → IsSorted (insert_sorted x xs)
unfolding insert_sorted
insert-IsSorted x [] h = (tt, tt)
insert-IsSorted x (y ∷ ys) (h, hs) = elim (Bool-cases (leb x y)) [
  | inl first ↦
      rw (first)
        ((leb→le x y first, All-mono _ _ ys (λ z le. omega (arith, leb→le x y first)) h), (h, hs))
  | inr later ↦ rw (later) (insert-All y x ys (ground arith) h, insert-IsSorted x ys hs)
]

pub sort-IsSorted : (xs : List ℕ) → IsSorted (sort xs)
unfolding sort
sort-IsSorted [] = tt
sort-IsSorted (x ∷ xs) = insert-IsSorted x (sort xs) (sort-IsSorted xs)

-- Nothing greater behind.
abbrev pub Descends : List ℕ → Type 0
Descends [] = Unit
Descends (x ∷ xs) = All (λ y. y ≤ x) xs × Descends xs

All-append_one : (P : ℕ → Type 0) (xs : List ℕ) (x : ℕ) → All P xs → P x → All P (xs ++ x ∷ [])
All-append_one P [] x h p = (p, tt)
All-append_one P (y ∷ ys) x (h, hs) p = (h, All-append_one P ys x hs p)

All-reverse : (P : ℕ → Type 0) (xs : List ℕ) → All P xs → All P (reverse xs)
unfolding reverse
All-reverse P [] h = tt
All-reverse P (x ∷ xs) (h, hs) = All-append_one P (reverse xs) x (All-reverse P xs hs) h

Descends-append_one :
    (xs : List ℕ) (x : ℕ) → Descends xs → All (λ y. x ≤ y) xs → Descends (xs ++ x ∷ [])
Descends-append_one [] x d h = (tt, tt)
Descends-append_one (y ∷ ys) x (d, ds) (h, hs) =
    (All-append_one (λ z. z ≤ y) ys x d h, Descends-append_one ys x ds hs)

reverse-Descends : (xs : List ℕ) → IsSorted xs → Descends (reverse xs)
unfolding reverse
reverse-Descends [] s = tt
reverse-Descends (x ∷ xs) (s, ss) =
    Descends-append_one (reverse xs) x (reverse-Descends xs ss) (All-reverse (λ y. x ≤ y) xs s)

All-filter : (P : ℕ → Type 0) (test : ℕ → Bool) (xs : List ℕ) → All P xs → All P (filter test xs)
unfolding filter
All-filter P test [] h = tt
All-filter P test (x ∷ xs) (h, hs) = elim (Bool-cases (test x)) [
  | inl hit ↦ rw (hit) (h, All-filter P test xs hs)
  | inr miss ↦ rw (miss) (All-filter P test xs hs)
]

filter-Descends : (test : ℕ → Bool) (xs : List ℕ) → Descends xs → Descends (filter test xs)
unfolding filter
filter-Descends test [] d = tt
filter-Descends test (x ∷ xs) (d, ds) = elim (Bool-cases (test x)) [
  | inl hit ↦ rw (hit) (All-filter (λ y. y ≤ x) test xs d, filter-Descends test xs ds)
  | inr miss ↦ rw (miss) (filter-Descends test xs ds)
]

-- How many elements are greater.
abbrev pub above : ℕ → List ℕ → ℕ
above u xs = count_where (λ v. ltb u v) xs

none_above : (u : ℕ) (xs : List ℕ) → All (λ y. y ≤ u) xs → above u xs ≡ 0
unfolding count_where
none_above u [] h = refl
none_above u (x ∷ xs) (h, hs) = ground (arith, none_above u xs hs)

All-le : (m n : ℕ) (xs : List ℕ) → m ≤ n → All (λ y. y ≤ m) xs → All (λ y. y ≤ n) xs
All-le m n [] h a = tt
All-le m n (x ∷ xs) h (a, rest) = (omega arith, All-le m n xs h rest)

not_contains : (u x : ℕ) (xs : List ℕ) → x < u → All (λ y. y ≤ x) xs → contains u xs ≡ false
unfolding contains
not_contains u x [] h a = refl
not_contains u x (y ∷ ys) h (a, rest) = ground (arith, not_contains u x ys h rest)

-- Of a list that descends, an element is among the first `n` if fewer than `n` are greater.
contains-take-above :
    (u n : ℕ) (xs : List ℕ)
    → Descends xs
    → contains u (take n xs) ≡ (contains u xs && ltb (above u xs) n)
unfolding contains count_where
contains-take-above u zero xs d = ground arith
contains-take-above u (suc n) [] d = ground arith
contains-take-above u (suc n) (x ∷ xs) (d, ds) = elim (Bool-cases (leb x u)) [
  | inl low ↦ ground (
    arith,
    contains-take-above u n xs ds,
    none_above u xs (All-le x u xs (leb→le x u low) d),
    λ (h : x < u). not_contains u x xs h d,
  )
  | inr high ↦ ground (arith, contains-take-above u n xs ds)
]

count-append :
    (test : ℕ → Bool) (xs : List ℕ) (x : ℕ)
    → count_where test (xs ++ x ∷ []) ≡ count_where test (x ∷ xs)
unfolding count_where
count-append test [] x = refl
count-append test (y ∷ ys) x = ground (arith, count-append test ys x)

count-reverse :
    (test : ℕ → Bool) (xs : List ℕ) → count_where test (reverse xs) ≡ count_where test xs
unfolding count_where reverse
count-reverse test [] = refl
count-reverse test (x ∷ xs) =
    ground (arith, count-append test (reverse xs) x, count-reverse test xs)

count-insert :
    (test : ℕ → Bool) (x : ℕ) (xs : List ℕ)
    → count_where test (insert_sorted x xs) ≡ count_where test (x ∷ xs)
unfolding count_where insert_sorted
count-insert test x [] = refl
count-insert test x (y ∷ ys) = ground (arith, count-insert test x ys)

count-sorted : (test : ℕ → Bool) (xs : List ℕ) → count_where test (sort xs) ≡ count_where test xs
unfolding count_where sort
count-sorted test [] = refl
count-sorted test (x ∷ xs) = ground (arith, count-insert test x (sort xs), count-sorted test xs)

count-filter :
    (test keep : ℕ → Bool) (xs : List ℕ)
    → count_where test (filter keep xs) ≡ count_where (λ v. keep v && test v) xs
unfolding count_where filter
count-filter test keep [] = refl
count-filter test keep (x ∷ xs) = ground (arith, count-filter test keep xs)

contains-reverse : (u : ℕ) (xs : List ℕ) → contains u (reverse xs) ≡ contains u xs
unfolding contains reverse
contains-reverse u [] = refl
contains-reverse u (x ∷ xs) =
    ground (arith, contains-append u (reverse xs) (x ∷ []), contains-reverse u xs)

-- The first `n` of the kept numbers, greatest first: those that are kept and have fewer than `n`
-- greater ones that are kept.
pub contains-newest :
    (u n : ℕ) (keep : ℕ → Bool) (xs : List ℕ)
    → contains u (take n (filter keep (reverse (sort xs))))
      ≡ ((contains u xs && keep u) && ltb (count_where (λ v. keep v && ltb u v) xs) n)
contains-newest u n keep xs =
    let descending = reverse-Descends (sort xs) (sort-IsSorted xs) in
    contains-take-above u n (filter keep (reverse (sort xs)))
      (filter-Descends keep (reverse (sort xs)) descending)
    ∙ rw
        (
          contains-filter u keep (reverse (sort xs)),
          contains-reverse u (sort xs),
          contains-sort u xs,
          count-filter (λ v. ltb u v) keep (reverse (sort xs)),
          count-reverse (λ v. keep v && ltb u v) (sort xs),
          count-sorted (λ v. keep v && ltb u v) xs,
        )
        refl
