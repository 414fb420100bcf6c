-- ===== src/Imap/Sequences.antt =====
-- `vanished_ranges` of crates/mailcore/src/sync/imap/seq.rs. A sequence set is imap-types': numbers
-- and ranges of numbers, where `*` stands for the largest one in use.
use mailclient.Base.{
  ℕ, ◌≤◌, ◌≡◌, refl, Bool, false, ◌&&◌, ◌||◌, List, [], ◌∷◌, ◌==◌, leb, if◌then◌else◌, length,
  arith,
}

pub data SeqOrUid : Type 0 where
  value : ℕ → SeqOrUid
  asterisk : SeqOrUid

pub data Sequence : Type 0 where
  single : SeqOrUid → Sequence
  range : SeqOrUid → SeqOrUid → Sequence

abbrev smaller : ℕ → ℕ → ℕ
smaller a b = if leb a b then a else b

abbrev larger : ℕ → ℕ → ℕ
larger a b = if leb a b then b else a

unfoldable pub vanished_ranges : List Sequence → List (ℕ × ℕ)
vanished_ranges [] = []
vanished_ranges (single (value v) ∷ set) = (v, v) ∷ vanished_ranges set
vanished_ranges (range (value a) (value b) ∷ set) = (smaller a b, larger a b) ∷ vanished_ranges set
vanished_ranges (_ ∷ set) = vanished_ranges set

-- The numbers that an element names, the ends of a range in either order. What holds `*` names
-- none, since its number is not known.
abbrev names : ℕ → Sequence → Bool
names u (single (value v)) = u == v
names u (range (value a) (value b)) = (leb a u && leb u b) || (leb b u && leb u a)
names u _ = false

unfoldable pub set_names : ℕ → List Sequence → Bool
set_names u [] = false
set_names u (s ∷ set) = names u s || set_names u set

unfoldable pub in_ranges : ℕ → List (ℕ × ℕ) → Bool
in_ranges u [] = false
in_ranges u ((first, last) ∷ ranges) = (leb first u && leb u last) || in_ranges u ranges

-- The ranges hold exactly the numbers that the set names, and are no more than its elements: a
-- range is not expanded, however long it is.
pub vanished_ranges-set_names :
    (u : ℕ) (set : List Sequence)
    → (in_ranges u (vanished_ranges set) ≡ set_names u set)
      × (length (vanished_ranges set) ≤ length set)
unfolding vanished_ranges set_names in_ranges
vanished_ranges-set_names u [] = (refl, omega arith)
vanished_ranges-set_names u (single (value v) ∷ set) =
    let (e, h) = vanished_ranges-set_names u set in (ground arith, omega arith)
vanished_ranges-set_names u (single asterisk ∷ set) =
    let (e, h) = vanished_ranges-set_names u set in (ground arith, omega arith)
vanished_ranges-set_names u (range (value a) (value b) ∷ set) =
    let (e, h) = vanished_ranges-set_names u set in (ground arith, omega arith)
vanished_ranges-set_names u (range (value a) asterisk ∷ set) =
    let (e, h) = vanished_ranges-set_names u set in (ground arith, omega arith)
vanished_ranges-set_names u (range asterisk last ∷ set) =
    let (e, h) = vanished_ranges-set_names u set in (ground arith, omega arith)
