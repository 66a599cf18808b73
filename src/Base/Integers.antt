-- ===== src/Base/Integers.antt =====
-- `int` values, as integers: where an operation of the source could leave its 32 bits, the model says so.
use Prim.Native.Nat.{ℕ}
use mathlib.Core.Bool.{Bool, true, false}

pub data ℤ : Type 0 where
  pos : ℕ → ℤ
  negsuc : ℕ → ℤ

-- INT_MAX
abbrev pub int_max : ℕ
int_max = 2147483647

abbrev pub is_negative : ℤ → Bool
is_negative (pos n) = false
is_negative (negsuc n) = true
