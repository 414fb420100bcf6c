-- ===== src/Base/Table/Laws.antt =====
-- What a lookup, a filter or a predicate on all rows sees after a statement has run.
use mathlib.Core.Option
use Prim.Native.Nat.{ℕ}
use mathlib.Core.Path.{◌≡◌, refl}
use mathlib.Core.Logic.{inl, inr}
use mathlib.Core.List.{List, [], ◌∷◌, ◌++◌, map}
use mathlib.Core.Bool.{Bool, true, false, ◌||◌}
use mathlib.Core.Option.{Option, none, some}
use native.Mathlib.Omega.{arith}
use mailclient.Base.Tests.{if◌then◌else◌, Bool-cases}
use mailclient.Base.Order.{contains}
use mailclient.Base.Lists.{All, is_empty}
use mailclient.Base.Table.{
  update_where, count_where, select_where, delete_where, find_where, insert_by, insert_all,
  order_by,
}

module _ {ℓ} {A : Type ℓ} (p test : A → Bool) where
  -- An update that keeps the key rewrites the row that the key finds, if it meets the test.
  pub find-update_where :
      (set : A → A) (xs : List A)
      → ((x : A) → p (set x) ≡ p x)
      → find_where p (update_where test set xs)
        ≡ Option.map (λ x. if test x then set x else x) (find_where p xs)
  unfolding find_where update_where
  find-update_where set [] keep = refl
  find-update_where set (x ∷ xs) keep = ground (arith, keep x, find-update_where set xs keep)

  pub find-delete_where :
      (xs : List A) {r : A}
      → find_where p xs ≡ some r
      → test r ≡ false
      → find_where p (delete_where test xs) ≡ some r
  unfolding find_where delete_where
  find-delete_where [] e h = cc
  find-delete_where (x ∷ xs) {r} e h = elim (Bool-cases (p x)) [
    | inl hit ↦ ground (arith)
    | inr miss ↦ ground (arith, find-delete_where xs {r = r})
  ]

  pub find-delete_none :
      (xs : List A) → find_where p xs ≡ none → find_where p (delete_where test xs) ≡ none
  unfolding find_where delete_where
  find-delete_none [] e = refl
  find-delete_none (x ∷ xs) e = ground (arith, find-delete_none xs)

module _ {ℓ} {A : Type ℓ} (test : A → Bool) where
  pub find_where-test : (xs : List A) {r : A} → find_where test xs ≡ some r → test r ≡ true
  unfolding find_where
  find_where-test [] e = cc
  find_where-test (x ∷ xs) {r} e = ground (arith, find_where-test xs {r = r})

  pub count_where-none : (xs : List A) → find_where test xs ≡ none → count_where test xs ≡ 0
  unfolding count_where find_where
  count_where-none [] e = refl
  count_where-none (x ∷ xs) e = ground (arith, count_where-none xs)

  -- A statement whose count is 0 changes nothing.
  pub update_where-none :
      (set : A → A) (xs : List A) → count_where test xs ≡ 0 → update_where test set xs ≡ xs
  unfolding count_where update_where
  update_where-none set [] h = refl
  update_where-none set (x ∷ xs) h = ground (arith, update_where-none set xs)

  pub select_where-All : (xs : List A) → All (λ x. test x ≡ true) (select_where test xs)
  unfolding select_where
  select_where-All [] = tt
  select_where-All (x ∷ xs) = elim (Bool-cases (test x)) [
    | inl hit ↦ rw hit (hit, select_where-All xs)
    | inr miss ↦ rw miss (select_where-All xs)
  ]

pub find-append {ℓ} :
    {A : Type ℓ} (p : A → Bool) (xs ys : List A) {r : A}
    → find_where p xs ≡ some r
    → find_where p (xs ++ ys) ≡ some r
unfolding find_where
find-append p [] ys e = cc
find-append p (x ∷ xs) ys {r} e = ground (arith, find-append p xs ys {r = r})

module _ {ℓ κ} {A : Type ℓ} (P : A → Type κ) (test : A → Bool) where
  pub All-update_where :
      (set : A → A) (xs : List A)
      → ((x : A) → test x ≡ true → P x → P (set x))
      → All P xs
      → All P (update_where test set xs)
  unfolding update_where
  All-update_where set [] keep h = tt
  All-update_where set (x ∷ xs) keep (hx, hs) = elim (Bool-cases (test x)) [
    | inl hit ↦ rw hit (keep x hit hx, All-update_where set xs keep hs)
    | inr miss ↦ rw miss (hx, All-update_where set xs keep hs)
  ]

  pub All-select_where : (xs : List A) → All P xs → All P (select_where test xs)
  unfolding select_where
  All-select_where [] h = tt
  All-select_where (x ∷ xs) (hx, hs) = elim (Bool-cases (test x)) [
    | inl hit ↦ rw hit (hx, All-select_where xs hs)
    | inr miss ↦ rw miss (All-select_where xs hs)
  ]

  pub All-delete_where : (xs : List A) → All P xs → All P (delete_where test xs)
  unfolding delete_where
  All-delete_where [] h = tt
  All-delete_where (x ∷ xs) (hx, hs) = elim (Bool-cases (test x)) [
    | inl hit ↦ rw hit (All-delete_where xs hs)
    | inr miss ↦ rw miss (hx, All-delete_where xs hs)
  ]

module _ {ℓ κ} {A : Type ℓ} (P : A → Type κ) (key : A → ℕ) where
  All-insert_by : (a : A) (xs : List A) → P a → All P xs → All P (insert_by key a xs)
  unfolding insert_by
  All-insert_by a [] h hs = (h, tt)
  All-insert_by a (x ∷ xs) h (hx, hs) = ground (arith, All-insert_by a xs h hs)

  All-insert_all : (xs out : List A) → All P xs → All P out → All P (insert_all key xs out)
  unfolding insert_all
  All-insert_all [] out hs ho = ho
  All-insert_all (x ∷ xs) out (hx, hs) ho =
      All-insert_all xs (insert_by key x out) hs (All-insert_by x out hx ho)

  pub All-order_by : (xs : List A) → All P xs → All P (order_by key xs)
  unfolding order_by
  All-order_by xs h = All-insert_all xs [] h tt

module _ {ℓ} {A : Type ℓ} (key : A → ℕ) where
  is_empty-insert_by : (a : A) (xs : List A) → is_empty (insert_by key a xs) ≡ false
  unfolding insert_by
  is_empty-insert_by a [] = refl
  is_empty-insert_by a (x ∷ xs) = ground arith

  is_empty-insert_all :
      (xs out : List A) → is_empty out ≡ false → is_empty (insert_all key xs out) ≡ false
  unfolding insert_all
  is_empty-insert_all [] out h = h
  is_empty-insert_all (x ∷ xs) out h =
      is_empty-insert_all xs (insert_by key x out) (is_empty-insert_by x out)

  pub is_empty-order_by : (xs : List A) → is_empty (order_by key xs) ≡ is_empty xs
  unfolding order_by insert_all
  is_empty-order_by [] = refl
  is_empty-order_by (x ∷ xs) = is_empty-insert_all xs (insert_by key x []) (is_empty-insert_by x [])

-- Sorting keeps what a column holds.
module _ {ℓ} {A : Type ℓ} (key column : A → ℕ) (n : ℕ) where
  contains-insert_by :
      (a : A) (xs : List A)
      → contains n (map column (insert_by key a xs)) ≡ contains n (map column (a ∷ xs))
  unfolding insert_by contains
  contains-insert_by a [] = refl
  contains-insert_by a (x ∷ xs) = ground (arith, contains-insert_by a xs)

  contains-insert_all :
      (xs out : List A)
      → contains n (map column (insert_all key xs out))
        ≡ (contains n (map column xs) || contains n (map column out))
  unfolding insert_all contains
  contains-insert_all [] out = refl
  contains-insert_all (x ∷ xs) out =
      ground (arith, contains-insert_all xs (insert_by key x out), contains-insert_by x out)

  pub contains-order_by :
      (xs : List A) → contains n (map column (order_by key xs)) ≡ contains n (map column xs)
  unfolding order_by contains
  contains-order_by xs = ground (arith, contains-insert_all xs [])
