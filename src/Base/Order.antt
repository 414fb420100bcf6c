-- ===== src/Base/Order.antt =====
-- `sort_unstable`, `dedup`, `min` and membership on lists of numbers.
use Prim.Native.Nat.{ℕ}
use mathlib.Core.List.{List, [], ◌∷◌, ◌++◌}
use mathlib.Core.Bool.{Bool, false, ◌||◌}
use mathlib.Core.Option.{Option, none, some}
use mailclient.Base.Tests.{leb, ◌==◌, if◌then◌else◌}

unfoldable pub insert_sorted : ℕ → List ℕ → List ℕ
insert_sorted a [] = a ∷ []
insert_sorted a (x ∷ xs) = if leb a x then a ∷ x ∷ xs else x ∷ insert_sorted a xs

unfoldable pub sort : List ℕ → List ℕ
unfolding insert_sorted
sort [] = []
sort (x ∷ xs) = insert_sorted x (sort xs)

-- `dedup` drops what equals its predecessor.
unfoldable pub dedup_from : ℕ → List ℕ → List ℕ
dedup_from a [] = []
dedup_from a (x ∷ xs) = let rest = dedup_from x xs in if a == x then rest else x ∷ rest

unfoldable pub dedup : List ℕ → List ℕ
unfolding dedup_from
dedup [] = []
dedup (x ∷ xs) = x ∷ dedup_from x xs

-- `Iterator::min`
unfoldable pub minimum : List ℕ → Option ℕ
minimum [] = none
minimum (x ∷ xs) = elim (minimum xs) [ none ↦ some x | some m ↦ some (if leb x m then x else m) ]

unfoldable pub contains : ℕ → List ℕ → Bool
contains a [] = false
contains a (x ∷ xs) = (x == a) || contains a xs

-- `Iterator::filter`
unfoldable pub filter : (ℕ → Bool) → List ℕ → List ℕ
filter test [] = []
filter test (u ∷ uids) = let rest = filter test uids in if test u then u ∷ rest else rest

-- `Iterator::rev` and `Iterator::max`
unfoldable pub reverse : List ℕ → List ℕ
reverse [] = []
reverse (x ∷ xs) = reverse xs ++ x ∷ []

unfoldable pub maximum : List ℕ → Option ℕ
maximum [] = none
maximum (x ∷ xs) = elim (maximum xs) [ none ↦ some x | some m ↦ some (if leb m x then x else m) ]
