-- ===== src/Base/Integers.antt =====
-- The integers of the library, over the native numbers.
use Prim.Native.Nat.{ℕ}

-- `negsuc n` is `-(n + 1)`.
pub data ℤ : Type 0 where
  pos negsuc : ℕ → ℤ
