-- ===== src/Prelude/Int.antt =====
-- Integers that are only stored, such as exit codes. `negsuc n` is -(n + 1).
use Prim.Native.Nat.{ℕ}

pub data ℤ : Type 0 where
  pos : ℕ → ℤ
  negsuc : ℕ → ℤ
