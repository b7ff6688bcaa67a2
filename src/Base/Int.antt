-- ===== src/Base/Int.antt =====
-- The `int` results of system calls, and the conversions that C makes between integer types.
use Prim.Native.Nat.{ℕ, zero, suc, ◌-◌, ◌%◌, ◌^◌}
use mathlib.Core.Bool.{Bool, true, false}
use cs252aproject.Base.Tests.{ltb, if◌then◌else◌}

-- `negsuc n` is -(n + 1).
pub data ℤ : Type 0 where
  pos : ℕ → ℤ
  negsuc : ℕ → ℤ

abbrev pub is_zero : ℤ → Bool
is_zero (pos zero) = true
is_zero (pos (suc n)) = false
is_zero (negsuc n) = false

abbrev pub is_neg : ℤ → Bool
is_neg (pos n) = false
is_neg (negsuc n) = true

-- `rc == -1`
abbrev pub is_minus_one : ℤ → Bool
is_minus_one (pos n) = false
is_minus_one (negsuc zero) = true
is_minus_one (negsuc (suc n)) = false

-- A signed value converted to an unsigned type of `w` bits.
abbrev pub to_unsigned : ℕ → ℤ → ℕ
to_unsigned w (pos n) = n % 2 ^ w
to_unsigned w (negsuc n) = (2 ^ w - 1) - n % 2 ^ w

-- An unsigned value converted to a signed type of `w` bits, by two's complement.
abbrev pub to_signed : ℕ → ℕ → ℤ
to_signed w n = let m = n % 2 ^ w in if ltb m (2 ^ (w - 1)) then pos m else negsuc ((2 ^ w - 1) - m)
