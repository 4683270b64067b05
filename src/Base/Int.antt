-- ===== src/Base/Int.antt =====
-- `int64_t` values of configuration files, and their casts to unsigned words.
use Prim.Native.Nat.{ℕ, suc, ◌+◌, ◌-◌, ◌%◌, ◌^◌}
use mathlib.Core.Bool.{Bool}
use gateway_poc.Base.Tests.{ltb}

-- `negsuc n` is -(n + 1).
pub data ℤ : Type 0 where
  pos : ℕ → ℤ
  negsuc : ℕ → ℤ

abbrev pub pos_part : ℤ → ℕ
pos_part (pos n) = n
pos_part (negsuc n) = 0

abbrev pub neg_part : ℤ → ℕ
neg_part (pos n) = 0
neg_part (negsuc n) = suc n

abbrev pub ltb_ℤ : ℤ → ℤ → Bool
ltb_ℤ a b = ltb (pos_part a + neg_part b) (pos_part b + neg_part a)

-- `static_cast` to an unsigned word of `w` bits.
abbrev pub cast_unsigned : ℕ → ℤ → ℕ
cast_unsigned w (pos n) = n % 2 ^ w
cast_unsigned w (negsuc n) = 2 ^ w - 1 - n % 2 ^ w
