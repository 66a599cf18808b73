-- ===== src/Runtime/Small.antt =====
-- The small numbers of src/runtime/include/number.h: `int` arithmetic with overflow tests. An `int` is
-- its bit pattern, a number below 2 ^ 32, and addition wraps around, as the tests rely on.
pub mod Overflow
use llscheme.Base.{
  ℕ, ◌+◌, ◌-◌, Bool, true, false, not, ◌&&◌, ltb, leb, ◌==◌, if◌then◌else◌, Option, none, some,
}
use Prim.Native.Nat.{◌%◌}

-- 2 ^ 32 and 2 ^ 31
abbrev pub modulus : ℕ
modulus = 4294967296

abbrev pub sign_bit : ℕ
sign_bit = 2147483648

-- `a < 0` and `a > 0`
abbrev pub below_zero : ℕ → Bool
below_zero a = leb sign_bit a

abbrev pub above_zero : ℕ → Bool
above_zero a = not (a == 0) && ltb a sign_bit

-- `==` of two truth values
abbrev pub agree : Bool → Bool → Bool
agree true b = b
agree false b = not b

-- The result of `__add_overflow_p`, and of the next two: `none` is an overflow, and otherwise there is
-- what is stored in `*res`.
unfoldable pub add_overflow_p : ℕ → ℕ → Option ℕ
add_overflow_p a b =
    let t = (a + b) % modulus in
    if agree (below_zero a) (below_zero b) && not (agree (below_zero t) (below_zero a))
    then none
    else some t

-- `__sub_overflow_p`
unfoldable pub sub_overflow_p : ℕ → ℕ → Option ℕ
sub_overflow_p a b =
    let t = (a + (modulus - b)) % modulus in
    if agree (below_zero a) (above_zero b) && not (agree (below_zero t) (below_zero a))
    then none
    else some t

-- `__si_to_ui`: the sign, as 1, 0 or the pattern of -1, and the absolute value.
unfoldable pub si_to_ui : ℕ → ℕ × ℕ
si_to_ui si =
    if above_zero si
    then (1, si)
    else if below_zero si
    then (modulus - 1, modulus - (si + 1) + 1)
    else (0, 0)

-- `_re_order2` on two small numbers: the sign of their difference, in one `int`.
unfoldable pub order2_small : ℕ → ℕ → ℕ
order2_small a b =
    let t = (a + (modulus - b)) % modulus in
    if below_zero t then modulus - 1 else if t == 0 then 0 else 1
