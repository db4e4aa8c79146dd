-- ===== src/Prelude/Integers.antt =====
-- The integers over the native numbers, with the constructors of the library's.
use Prim.Native.Nat.{ℕ}

-- `pos n` is n, and `negsuc n` is -(n + 1).
pub data ℤ : Type 0 where
  pos negsuc : ℕ → ℤ
