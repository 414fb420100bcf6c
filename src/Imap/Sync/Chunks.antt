-- ===== src/Imap/Sync/Chunks.antt =====
-- The chunks of a list of UIDs hold those UIDs.
use mailclient.Base.{
  ℕ, zero, suc, ◌-◌, ◌≤◌, ◌≡◌, refl, ◌∙◌, Bool, false, ◌&&◌, ◌||◌, List, [], ◌∷◌, arith, length,
  drop,
}
use mailclient.Base.Order.{contains, filter, sort}
use mailclient.Base.Membership.{contains-take-drop, contains-filter, contains-sort}
use mailclient.Imap.Sync.{chunks_from, chunks}

abbrev pub in_chunks : ℕ → List (List ℕ) → Bool
in_chunks u [] = false
in_chunks u (chunk ∷ rest) = contains u chunk || in_chunks u rest

length-drop : (n : ℕ) (xs : List ℕ) → length (drop n xs) ≡ length xs - n
length-drop zero xs = omega arith
length-drop (suc n) [] = omega arith
length-drop (suc n) (x ∷ xs) = omega (arith, length-drop n xs)

pub in_chunks-chunks_from :
    (u fuel size : ℕ) (uids : List ℕ)
    → length uids ≤ fuel
    → in_chunks u (chunks_from fuel (suc size) uids) ≡ contains u uids
unfolding chunks_from contains
in_chunks-chunks_from u zero size [] enough = refl
in_chunks-chunks_from u zero size (x ∷ uids) enough = ground arith
in_chunks-chunks_from u (suc fuel) size [] enough = refl
in_chunks-chunks_from u (suc fuel) size (x ∷ uids) enough = ground (
  arith,
  contains-take-drop u size uids,
  in_chunks-chunks_from u fuel size (drop size uids) (omega (arith, length-drop size uids)),
)

pub in_chunks-chunks : (u : ℕ) (uids : List ℕ) → in_chunks u (chunks uids) ≡ contains u uids
unfolding chunks
in_chunks-chunks u uids = in_chunks-chunks_from u (length uids) 99 uids (omega arith)

pub in_chunks-filter :
    (u : ℕ) (test : ℕ → Bool) (uids : List ℕ)
    → in_chunks u (chunks (filter test uids)) ≡ (contains u uids && test u)
in_chunks-filter u test uids = in_chunks-chunks u (filter test uids) ∙ contains-filter u test uids

pub in_chunks-sort-filter :
    (u : ℕ) (test : ℕ → Bool) (uids : List ℕ)
    → in_chunks u (chunks (sort (filter test uids))) ≡ (contains u uids && test u)
in_chunks-sort-filter u test uids =
    in_chunks-chunks u (sort (filter test uids))
    ∙ contains-sort u (filter test uids)
    ∙ contains-filter u test uids
