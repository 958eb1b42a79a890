-- ===== src/Base/Int.antt =====
-- Signed integers over the native numbers: i32 and i64 values that are stored and compared.
use Prim.Native.Nat.{ℕ}

-- `negsuc n` is -(n + 1).
pub data ℤ : Type 0 where
  pos : ℕ → ℤ
  negsuc : ℕ → ℤ
