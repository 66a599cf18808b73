-- ===== src/Runtime/Number/Arith.antt =====
-- `_re_arith2` of src/runtime/include/number.h, with `__mul_overflow_p` and `_re_neg`.
use llscheme.Base.{
  ℕ, ◌+◌, ◌-◌, ◌*◌, Bool, false, not, ◌&&◌, ◌||◌, Option, none, some, ◌==◌, if◌then◌else◌,
}
use Prim.Native.Nat.{◌%◌, ◌/◌}
use llscheme.Base.Outcome.{Outcome, ok, fault, division_by_zero, signed_overflow}
use llscheme.Runtime.Small.{modulus, sign_bit, below_zero, add_overflow_p, sub_overflow_p, si_to_ui}
use llscheme.Runtime.Number.{
  Operations, Products, Gmp, Real, small, big, rational, inexact, ◌>>=◌, divided, type_of,
  re_promote, re_canonicalize,
}

-- the characters that `op` may be
pub data ArithOp : Type 0 where
  plus minus times divide : ArithOp

-- `__mul_overflow_p`: `wide` is the pattern of an `int64_t`, and of its bits from 31 on an `int` holds 32.
abbrev pub wide_modulus : ℕ
wide_modulus = 18446744073709551616

unfoldable pub widen : ℕ → ℕ
widen a = if below_zero a then a + (wide_modulus - modulus) else a

unfoldable pub mul_overflow_p : ℕ → ℕ → Option ℕ
unfolding widen
mul_overflow_p a b =
    let x = widen a * widen b % wide_modulus in
    let y = x / sign_bit % modulus in
    if not (y == 0) && not (y == modulus - 1) then none else some (x % modulus)

-- `a / b` of two values of type `int`, which C rounds towards zero
unfoldable pub int_div : ℕ → ℕ → ℕ
unfolding si_to_ui
int_div a b =
    let m = (si_to_ui a).1 / (si_to_ui b).1 in
    if below_zero a && not (below_zero b) || not (below_zero a) && below_zero b
    then (modulus - m) % modulus
    else m

-- the macro MP_ARITH_CASE_SIGN; `below` tells that `_sgn` is -1
abbrev pub negated : {T : Type 0} → (T → T) → Bool → Option T → Option T
negated neg below none = none
negated neg below (some t) = some (if below then neg t else t)

unfoldable pub arith_case :
    {T U : Type 0} → Operations T U → (T → T) → ArithOp → Bool → T → U → Option T
arith_case o neg plus below x y = some (if below then o.sub x y else o.add x y)
arith_case o neg minus below x y = some (if below then o.add x y else o.sub x y)
arith_case o neg times below x y = some (if below then neg (o.mul x y) else o.mul x y)
arith_case o neg divide below x y = negated neg below (o.div x y)

-- What becomes of two small numbers: a small one, or a promotion to an integer or a rational.
pub data Plain : Type 0 where
  stays : ℕ → Plain
  promotes : ℕ → Plain

abbrev pub or_promote : ℕ → Option ℕ → Plain
or_promote dtype none = promotes dtype
or_promote dtype (some t) = stays t

-- `a % b` and `a / b` have no defined result for b = 0, and for INT_MIN and -1.
unfoldable pub divide_small : ℕ → ℕ → Outcome Plain
unfolding si_to_ui int_div
divide_small a b =
    if b == 0
    then fault division_by_zero
    else if a == sign_bit && b == modulus - 1
    then fault signed_overflow
    else if (si_to_ui a).1 % (si_to_ui b).1 == 0
    then ok (stays (int_div a b))
    else ok (promotes 2)

unfoldable pub arith_small : ArithOp → ℕ → ℕ → Outcome Plain
unfolding divide_small
arith_small plus a b = ok (or_promote 1 (add_overflow_p a b))
arith_small minus a b = ok (or_promote 1 (sub_overflow_p a b))
arith_small times a b = ok (or_promote 1 (mul_overflow_p a b))
arith_small divide a b = divide_small a b

-- `_sgn == -1`
abbrev pub is_negative_sign : ℕ → Bool
is_negative_sign sgn = sgn == modulus - 1

module _ (g : Gmp) where
  -- the macro MP_ARITH_RATIONAL_CASE_SIGN
  unfoldable pub rational_case : {U : Type 0} → Products g.Z U → ArithOp → Bool → g.Q → U → g.Q
  rational_case o plus below q y =
      let n = g.q_numref q in
      let d = g.q_denref q in g.q_with_num q (if below then o.submul n d y else o.addmul n d y)
  rational_case o minus below q y =
      let n = g.q_numref q in
      let d = g.q_denref q in g.q_with_num q (if below then o.addmul n d y else o.submul n d y)
  rational_case o times below q y =
      let n = o.mul (g.q_numref q) y in g.q_with_num q (if below then g.z_neg n else n)
  rational_case o divide below q y =
      let d = o.mul (g.q_denref q) y in g.q_with_den q (if below then g.z_neg d else d)

  -- `src` is an `int`, of which no number of GMP is made.
  unfoldable pub with_int : ArithOp → Real g → ℕ → Outcome (Real g)
  unfolding arith_case rational_case si_to_ui
  with_int op dst si =
      let (sgn, ui) = si_to_ui si in
      let below = is_negative_sign sgn in
      elim dst [
        | small v ↦ ok (small v)
        | big z ↦ divided big (arith_case g.z_ui g.z_neg op below z ui)
        | rational q ↦ ok (rational (rational_case g.ui_products op below q ui))
        | inexact f ↦ divided inexact (arith_case g.f_ui g.f_neg op below f ui)
      ]

  -- two numbers of one type of GMP
  unfoldable pub same_type : ArithOp → Real g → Real g → Outcome (Real g)
  unfolding arith_case
  same_type op (big x) (big y) = divided big (arith_case g.z g.z_neg op false x y)
  same_type op (rational x) (rational y) = divided rational (arith_case g.q g.q_neg op false x y)
  same_type op (inexact x) (inexact y) = divided inexact (arith_case g.f g.f_neg op false x y)
  same_type op x y = ok x

  -- before a division of an integer that leaves a remainder: a rational
  unfoldable pub for_division : ArithOp → Real g → Real g → Real g
  unfolding re_promote si_to_ui
  for_division divide (big z) (small v) =
      if g.z_divisible_ui_p z (si_to_ui v).1 then big z else re_promote g (big z) 2
  for_division divide (big z) (big w) =
      if g.z_divisible_p z w then big z else re_promote g (big z) 2
  for_division op dst src = dst

  -- both promoted to the higher type; of `src` only a copy
  unfoldable pub promoted_both : ArithOp → Real g → Real g → Outcome (Real g)
  unfolding re_promote same_type
  promoted_both op dst src =
      let dst' = re_promote g dst (type_of g src) in
      same_type op dst' (re_promote g src (type_of g dst'))

  unfoldable pub by_types : ArithOp → Real g → Real g → Outcome (Real g)
  unfolding with_int promoted_both rational_case
  by_types op dst (small v) = with_int op dst v
  by_types op (rational q) (big z) = ok (rational (rational_case g.z_products op false q z))
  by_types op dst src = promoted_both op dst src

  -- `_re_arith2` once `dst` is a number of GMP
  unfoldable pub arith_gmp : ArithOp → Real g → Real g → Outcome (Real g)
  unfolding for_division by_types
  arith_gmp op dst src = by_types op (for_division op dst src) src >>= re_canonicalize g

  unfoldable pub after_small : ArithOp → ℕ → ℕ → Plain → Outcome (Real g)
  unfolding arith_gmp re_promote
  after_small op a b (stays t) = ok (small t)
  after_small op a b (promotes dtype) = arith_gmp op (re_promote g (small a) dtype) (small b)

  -- `_re_arith2`
  unfoldable pub re_arith2 : ArithOp → Real g → Real g → Outcome (Real g)
  unfolding arith_small after_small arith_gmp
  re_arith2 op (small a) (small b) = arith_small op a b >>= after_small op a b
  re_arith2 op dst src = arith_gmp op dst src

  -- `_re_neg`, which overflows on INT_MIN
  unfoldable pub re_neg : Real g → Outcome (Real g)
  re_neg (small v) =
      if v == sign_bit then fault signed_overflow else ok (small ((modulus - v) % modulus))
  re_neg (big z) = ok (big (g.z_neg z))
  re_neg (rational q) = ok (rational (g.q_neg q))
  re_neg (inexact f) = ok (inexact (g.f_neg f))
