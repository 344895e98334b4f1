-- ===== src/Base/Int.antt =====
-- Signed integers over the native numbers: Go's `int`, `int32`, `int64` and `time.Duration`.
use Prim.Native.Nat.{ℕ, suc, ◌+◌, ◌-◌, ◌*◌, ◌%◌}
use mathlib.Core.Bool.{Bool}
use roadrunner_temporal.Base.Tests.{ltb, ◌==◌, if◌then◌else◌}

-- `negsuc n` is -(n + 1).
pub data ℤ : Type 0 where
  pos : ℕ → ℤ
  negsuc : ℕ → ℤ

abbrev pub pos_part : ℤ → ℕ
pos_part (pos n) = n
pos_part (negsuc n) = 0

abbrev pub neg_part : ℤ → ℕ
neg_part (pos n) = 0
neg_part (negsuc n) = suc n

abbrev pub is_zero : ℤ → Bool
is_zero z = pos_part z + neg_part z == 0

-- The integer that the low 64 bits of a product of magnitudes stand for, in two's complement.
abbrev pub half_range : ℕ
half_range = 9223372036854775808

abbrev pub full_range : ℕ
full_range = 18446744073709551616

abbrev pub signed : ℕ → ℤ
signed n = if ltb n half_range then pos n else negsuc (full_range - 1 - n)

-- `int64` multiplication by a positive constant, with its wrap-around.
unfoldable pub scale64 : ℕ → ℤ → ℤ
scale64 k (pos n) = signed ((k * n) % full_range)
scale64 k (negsuc n) = signed ((full_range - (k * suc n) % full_range) % full_range)
