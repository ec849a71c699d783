-- ===== src/Base/Integers.antt =====
-- A C `int` as an integer over the native numbers, under the library's names.
use Prim.Native.Nat.{ℕ}

-- `pos n` is n, `negsuc n` is - (n + 1).
pub data ℤ : Type 0 where
  pos : ℕ → ℤ
  negsuc : ℕ → ℤ
