-- ===== src/Base/Signed.antt =====
-- Sums, differences and products of integers.
use Prim.Native.Nat.{ℕ, suc, ◌+◌, ◌-◌, ◌*◌}
use mathlib.Core.Path.{◌≡◌}
use native.Mathlib.Omega.{arith}
use llscheme.Base.Tests.{leb, if◌then◌else◌}
use llscheme.Base.Integers.{ℤ, pos, negsuc}

-- what an integer is above zero, and below
abbrev pub above : ℤ → ℕ
above (pos n) = n
above (negsuc n) = 0

abbrev pub below : ℤ → ℕ
below (pos n) = 0
below (negsuc n) = suc n

abbrev pub minus_ℕ : ℕ → ℕ → ℤ
minus_ℕ m n = if leb n m then pos (m - n) else negsuc (n - m - 1)

infixl 65 ◌+ℤ◌ ◌-ℤ◌
infixl 70 ◌*ℤ◌
unfoldable pub ◌+ℤ◌ : ℤ → ℤ → ℤ
x +ℤ y = minus_ℕ (above x + above y) (below x + below y)

unfoldable pub ◌-ℤ◌ : ℤ → ℤ → ℤ
x -ℤ y = minus_ℕ (above x + below y) (below x + above y)

unfoldable pub ◌*ℤ◌ : ℤ → ℤ → ℤ
x *ℤ y = minus_ℕ (above x * above y + below x * below y) (above x * below y + below x * above y)

-- an integer taken the other way
abbrev pub opposite_ℤ : ℤ → ℤ
opposite_ℤ x = minus_ℕ (below x) (above x)

pub add-opposite : (x y : ℤ) → x -ℤ y ≡ x +ℤ opposite_ℤ y
unfolding ◌+ℤ◌ ◌-ℤ◌
add-opposite x y = ground arith

pub sub-opposite : (x y : ℤ) → x +ℤ y ≡ x -ℤ opposite_ℤ y
unfolding ◌+ℤ◌ ◌-ℤ◌
sub-opposite x y = ground arith

pub opposite-mul : (x y : ℤ) → opposite_ℤ (x *ℤ y) ≡ x *ℤ opposite_ℤ y
unfolding ◌*ℤ◌
opposite-mul (pos m) (pos n) = ground arith
opposite-mul (pos m) (negsuc n) = ground arith
opposite-mul (negsuc m) (pos n) = ground arith
opposite-mul (negsuc m) (negsuc n) = ground arith

-- products by the signs of the factors
pub pos-mul-pos : (m n : ℕ) → pos m *ℤ pos n ≡ pos (m * n)
unfolding ◌*ℤ◌
pos-mul-pos m n = ground arith

pub pos-mul-negsuc : (m n : ℕ) → pos m *ℤ negsuc n ≡ minus_ℕ 0 (suc n * m)
unfolding ◌*ℤ◌
pos-mul-negsuc m n = ground arith

pub negsuc-mul-pos : (m n : ℕ) → negsuc m *ℤ pos n ≡ minus_ℕ 0 (suc m * n)
unfolding ◌*ℤ◌
negsuc-mul-pos m n = ground arith

pub negsuc-mul-negsuc : (m n : ℕ) → negsuc m *ℤ negsuc n ≡ pos (suc m * suc n)
unfolding ◌*ℤ◌
negsuc-mul-negsuc m n = ground arith

pub mul-opposite : (x y : ℤ) → opposite_ℤ x *ℤ y ≡ opposite_ℤ (x *ℤ y)
unfolding ◌*ℤ◌
mul-opposite (pos m) (pos n) = ground arith
mul-opposite (pos m) (negsuc n) = ground arith
mul-opposite (negsuc m) (pos n) = ground arith
mul-opposite (negsuc m) (negsuc n) = ground arith
