-- ===== src/Base/Ints.antt =====
-- Machine integers with a sign.
use Prim.Native.Nat.{ℕ}

pub data ℤ : Type 0 where
  pos : ℕ → ℤ
  -- The negative of one more.
  negsuc : ℕ → ℤ
