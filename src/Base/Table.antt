-- ===== src/Base/Table.antt =====
-- A database table as the list of its rows in rowid order, and the statements that the stores run
-- on it: `update .. where`, `delete .. where`, `select .. where`, `order by`. A `where` clause is
-- a Boolean test on a row.
pub mod Laws
use Prim.Native.Nat.{ℕ, suc}
use mathlib.Core.Path.{◌≡◌, refl}
use mathlib.Core.List.{List, [], ◌∷◌, ◌++◌}
use mathlib.Core.Bool.{Bool, true, false}
use mathlib.Core.Option.{Option, none, some}
use native.Mathlib.Omega.{arith}
use mailclient.Base.Tests.{leb, if◌then◌else◌}

module _ {ℓ} {A : Type ℓ} where
  unfoldable pub update_where : (A → Bool) → (A → A) → List A → List A
  update_where test set [] = []
  update_where test set (x ∷ xs) = (if test x then set x else x) ∷ update_where test set xs

  -- The number of rows that a statement with this `where` clause touches.
  unfoldable pub count_where : (A → Bool) → List A → ℕ
  count_where test [] = 0
  count_where test (x ∷ xs) = let rest = count_where test xs in if test x then suc rest else rest

  unfoldable pub select_where : (A → Bool) → List A → List A
  select_where test [] = []
  select_where test (x ∷ xs) = let rest = select_where test xs in if test x then x ∷ rest else rest

  unfoldable pub delete_where : (A → Bool) → List A → List A
  delete_where test [] = []
  delete_where test (x ∷ xs) = let rest = delete_where test xs in if test x then rest else x ∷ rest

  unfoldable pub find_where : (A → Bool) → List A → Option A
  find_where test [] = none
  find_where test (x ∷ xs) = if test x then some x else find_where test xs

  -- Behind every row whose key is not larger: equal keys keep their order.
  unfoldable pub insert_by : (A → ℕ) → A → List A → List A
  insert_by key a [] = a ∷ []
  insert_by key a (x ∷ xs) = if leb (key x) (key a) then x ∷ insert_by key a xs else a ∷ x ∷ xs

  insert_all : (A → ℕ) → List A → List A → List A
  unfolding insert_by
  insert_all key [] out = out
  insert_all key (x ∷ xs) out = insert_all key xs (insert_by key x out)

  unfoldable pub order_by : (A → ℕ) → List A → List A
  unfolding insert_all
  order_by key xs = insert_all key xs []
