-- ===== src/Shared/Int.antt =====
-- Go's `int` where the code distinguishes a negative value: the library's integers over native ℕ.
use Prim.Native.Nat.{ℕ}

-- `negsuc n` is -(n + 1).
pub data ℤ : Type 0 where
  pos : ℕ → ℤ
  negsuc : ℕ → ℤ
