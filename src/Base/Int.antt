-- ===== src/Base/Int.antt =====
-- Signed integers: Go's `int` where the code keeps or compares one.
use Prim.Native.Nat.{ℕ}

-- `negsuc n` is -(n + 1).
pub data ℤ : Type 0 where
  pos : ℕ → ℤ
  negsuc : ℕ → ℤ
