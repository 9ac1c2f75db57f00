-- ===== src/Prelude/Integers.antt =====
-- Signed integers over the native numbers, and the values of a 32-bit `int`.
use Prim.Native.Nat.{ℕ, ◌^◌, ◌<◌}

-- `negsuc n` is -(n + 1).
pub data ℤ : Type 0 where
  pos negsuc : ℕ → ℤ

-- From -2^31 to 2^31 - 1.
abbrev pub IsInt : ℤ → Type 0
IsInt (pos n) = n < 2 ^ 31
IsInt (negsuc n) = n < 2 ^ 31
