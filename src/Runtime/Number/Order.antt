-- ===== src/Runtime/Number/Order.antt =====
-- `_re_order2` of src/runtime/include/number.h: the sign of the difference of two real numbers.
use llscheme.Base.{ℕ, ◌-◌, ◌==◌, if◌then◌else◌}
use llscheme.Runtime.Small.{modulus, order2_small}
use llscheme.Runtime.Number.{
  Sign, negative, equal, positive, Gmp, Real, small, big, rational, inexact,
}

-- the minus in front of a comparison
abbrev pub opposite : Sign → Sign
opposite negative = positive
opposite equal = equal
opposite positive = negative

-- an `int` that is -1, 0 or 1
abbrev pub sign_of : ℕ → Sign
sign_of n = if n == 0 then equal else if n == modulus - 1 then negative else positive

-- where the signs `s` and `t` differ, the order that they give, and otherwise `same`
abbrev pub by_signs : Sign → Sign → Sign → Sign
by_signs negative negative same = same
by_signs negative _ same = negative
by_signs equal negative same = positive
by_signs equal equal same = same
by_signs equal positive same = negative
by_signs positive positive same = same
by_signs positive _ same = positive

module _ (g : Gmp) where
  -- `_re_order2`
  unfoldable pub re_order2 : Real g → Real g → Sign
  unfolding order2_small
  re_order2 (small a) (small b) = sign_of (order2_small a b)
  re_order2 (big z) (small b) = g.z_cmp_si z b
  re_order2 (rational q) (small b) = g.q_cmp_si q b
  re_order2 (inexact f) (small b) = g.f_cmp_si f b
  re_order2 (small a) (big z) = opposite (g.z_cmp_si z a)
  re_order2 (small a) (rational q) = opposite (g.q_cmp_si q a)
  re_order2 (small a) (inexact f) = opposite (g.f_cmp_si f a)
  re_order2 (big z) (rational q) =
      by_signs (g.z_sgn z) (g.q_sgn q) (g.z_cmp (g.z_products.mul z (g.q_denref q)) (g.q_numref q))
  re_order2 (rational q) (big z) =
      by_signs (g.q_sgn q) (g.z_sgn z) (g.z_cmp (g.q_numref q) (g.z_products.mul z (g.q_denref q)))
  re_order2 (big x) (big y) = g.z_cmp x y
  re_order2 (rational x) (rational y) = g.q_cmp x y
  re_order2 (inexact x) (inexact y) = g.f_cmp x y
  re_order2 (inexact f) (big z) = by_signs (g.f_sgn f) (g.z_sgn z) (g.f_cmp f (g.f_set_z z))
  re_order2 (inexact f) (rational q) = by_signs (g.f_sgn f) (g.q_sgn q) (g.f_cmp f (g.f_set_q q))
  re_order2 (big z) (inexact f) = by_signs (g.z_sgn z) (g.f_sgn f) (g.f_cmp (g.f_set_z z) f)
  re_order2 (rational q) (inexact f) = by_signs (g.q_sgn q) (g.f_sgn f) (g.f_cmp (g.f_set_q q) f)
