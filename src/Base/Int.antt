-- ===== src/Base/Int.antt =====
-- Signed integers over the native numbers, and the conversions of the C++ integer types.
use Prim.Native.Nat.{ℕ}
use mathlib.Core.Bool.{Bool, true, false}
use photon_commerce.Base.Tests.{ltb, leb}

-- `negsuc n` is -(n + 1).
pub data ℤ : Type 0 where
  pos : ℕ → ℤ
  negsuc : ℕ → ℤ

-- `v <= 0`.
abbrev pub le_zero : ℤ → Bool
le_zero (pos n) = leb n 0
le_zero (negsuc n) = true

-- `v < 0`.
abbrev pub lt_zero : ℤ → Bool
lt_zero (pos n) = false
lt_zero (negsuc n) = true

-- `v > k`.
abbrev pub gt_ℕ : ℤ → ℕ → Bool
gt_ℕ (pos n) k = ltb k n
gt_ℕ (negsuc n) k = false

-- The number of a value that is not negative.
abbrev pub to_ℕ : ℤ → ℕ
to_ℕ (pos n) = n
to_ℕ (negsuc n) = 0
