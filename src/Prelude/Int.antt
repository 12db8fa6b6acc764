-- ===== src/Prelude/Int.antt =====
-- A signed integer, as the argument of a call: no arithmetic is done on it.
use Prim.Native.Nat.{ℕ}

-- `negsuc n` is -(n + 1).
pub data ℤ : Type 0 where
  pos negsuc : ℕ → ℤ
