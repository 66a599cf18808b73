-- ===== src/Runtime/Number/Multiply.antt =====
-- `__mul_overflow_p` of src/runtime/include/number.h against the product of the values.
use llscheme.Base.{
  ℕ, suc, not, ◌&&◌, ◌+◌, ◌-◌, ◌*◌, ◌≤◌, ◌<◌, ◌≡◌, refl, ap, sym, ◌∙◌, ◌⊎◌, true, false, Bool-cases,
  inl, inr, ltb, ◌==◌, arith, if◌then◌else◌, Option, none, some, ℤ, pos, negsuc,
}
use llscheme.Base.Signed.{
  ◌*ℤ◌, above, below, minus_ℕ, pos-mul-pos, pos-mul-negsuc, negsuc-mul-pos, negsuc-mul-negsuc,
}
use native.Mathlib.Nat.{mul-le-mul_left, mul-le-mul_right, mul-add, add-mul, mul_comm}
use Prim.Native.Nat.{◌%◌, ◌/◌}
use llscheme.Runtime.Small.{modulus, sign_bit, below_zero}
use llscheme.Runtime.Number.Arith.{widen, wide_modulus, mul_overflow_p}

-- the value of an `int`
unfoldable pub int : ℕ → ℤ
int v = if ltb v sign_bit then pos v else negsuc (modulus - v - 1)

-- The test, on the pattern of the product.
abbrev decided : ℕ → Option ℕ
decided x =
    let y = x / sign_bit % modulus in
    if not (y == 0) && not (y == modulus - 1) then none else some (x % modulus)

abbrev max_product : ℕ
max_product = 4611686018427387904

decided-above : (p : ℕ) → p ≤ max_product → decided p ≡ (if ltb p sign_bit then some p else none)
decided-above p l = ground arith

decided-below :
    (p : ℕ)
    → 0 < p
    → p ≤ max_product
    → decided (wide_modulus - p) ≡ (if ltb sign_bit p then none else some (modulus - p))
decided-below p n l = ground arith

product-bound : (a b : ℕ) → a ≤ sign_bit → b ≤ sign_bit → a * b ≤ max_product
product-bound a b l m = omega (arith, mul-le-mul_left a m, mul-le-mul_right sign_bit l)

-- products with the sign of one factor or of both extended
mixed-product :
    (a b : ℕ)
    → 0 < a * b
    → a ≤ sign_bit
    → b ≤ sign_bit
    → (wide_modulus - a) * b % wide_modulus ≡ wide_modulus - a * b
mixed-product a b n l m =
    let x : ℕ = wide_modulus - a in
    let s : x + a ≡ wide_modulus = omega arith in
    let e : x * b + a * b ≡ wide_modulus * b = sym (add-mul x a b) ∙ ap (λ (t : ℕ). t * b) s in
    omega (arith, e, product-bound a b l m)

both-product :
    (a b : ℕ)
    → a ≤ sign_bit
    → b ≤ sign_bit
    → (wide_modulus - a) * (wide_modulus - b) % wide_modulus ≡ a * b
both-product a b l m =
    let x : ℕ = wide_modulus - a in
    let y : ℕ = wide_modulus - b in
    let s : x + a ≡ wide_modulus = omega arith in
    let t : y + b ≡ wide_modulus = omega arith in
    let e : x * b + a * b ≡ wide_modulus * b = sym (add-mul x a b) ∙ ap (λ (u : ℕ). u * b) s in
    let e' : x * y + x * b ≡ x * wide_modulus = sym (mul-add x y b) ∙ ap (λ (u : ℕ). x * u) t in
    omega (arith, e, e', product-bound a b l m)

-- no `int`
abbrev pub TooBig : ℤ → Type 0
TooBig x = (sign_bit ≤ above x) ⊎ (sign_bit < below x)

-- A result that should have the value `x`.
pub data Fit (x : ℤ) : Option ℕ → Type 0 where
  fits : (t : ℕ) → t < modulus → int t ≡ x → Fit x (some t)
  too_big : TooBig x → Fit x none

above-Fit : (p : ℕ) → p ≤ max_product → Fit (pos p) (decided p)
unfolding int
above-Fit p l = elim (Bool-cases (ltb p sign_bit)) [
  | inl e ↦ rw (decided-above p l, e) (fits p (ground arith) (rw e refl))
  | inr e ↦ rw (decided-above p l, e) (too_big (inl (ground arith)))
]

below-int : (p : ℕ) → 0 < p → p ≤ sign_bit → int (modulus - p) ≡ minus_ℕ 0 p
unfolding int
below-int p n l = ground arith

below-Fit : (p : ℕ) → 0 < p → p ≤ max_product → Fit (minus_ℕ 0 p) (decided (wide_modulus - p))
below-Fit p n l = elim (Bool-cases (ltb sign_bit p)) [
  | inl e ↦ rw (decided-below p n l, e) (too_big (inr (ground arith)))
  | inr e ↦
      rw (decided-below p n l, e) (fits (modulus - p) (ground arith) (below-int p n (ground arith)))
]

mixed-zero : (a b : ℕ) → a * b ≡ 0 → a ≤ sign_bit → (wide_modulus - a) * b % wide_modulus ≡ 0
mixed-zero a b z l =
    let x : ℕ = wide_modulus - a in
    let s : x + a ≡ wide_modulus = omega arith in
    let e : x * b + a * b ≡ wide_modulus * b = sym (add-mul x a b) ∙ ap (λ (t : ℕ). t * b) s in
    omega (arith, e, z)

-- where one factor is below zero and the other is not
mixed-Fit :
    (a b : ℕ)
    → a ≤ sign_bit
    → b ≤ sign_bit
    → Fit (minus_ℕ 0 (a * b)) (decided ((wide_modulus - a) * b % wide_modulus))
mixed-Fit a b l m = elim (Bool-cases (a * b == 0)) [
  | inl e ↦
      let z : a * b ≡ 0 = ground arith in rw (mixed-zero a b z l, z) (above-Fit 0 (omega arith))
  | inr e ↦
      rw (mixed-product a b (ground arith) l m)
        (below-Fit (a * b) (ground arith) (product-bound a b l m))
]

-- an `int` by its sign
data Signed (a : ℕ) : ℤ → ℕ → Type 0 where
  from_zero : a < sign_bit → Signed a (pos a) a
  below_zero_by : (m : ℕ) → m < sign_bit → Signed a (negsuc m) (wide_modulus - suc m)

int-Signed : (a : ℕ) → a < modulus → Signed a (int a) (widen a)
unfolding int widen
int-Signed a l = elim (Bool-cases (ltb a sign_bit)) [
  | inl e ↦ let n : below_zero a ≡ false = ground arith in rw (e, n) (from_zero (ground arith))
  | inr e ↦
      let n : below_zero a ≡ true = ground arith in
      let w : a + (wide_modulus - modulus) ≡ wide_modulus - suc (modulus - a - 1) = ground arith in
      rw (e, n, w) (below_zero_by (modulus - a - 1) (ground arith))
]

product-Fit :
    {a b u v : ℕ} {x y : ℤ}
    → Signed a x u
    → Signed b y v
    → Fit (x *ℤ y) (decided (u * v % wide_modulus))
product-Fit {a} {b} (from_zero l) (from_zero m) =
    let bound = product-bound a b (omega arith) (omega arith) in
    let e : a * b % wide_modulus ≡ a * b = omega (arith, bound) in
    rw (pos-mul-pos a b, e) (above-Fit (a * b) bound)
product-Fit {a} {b} (from_zero l) (below_zero_by n m) =
    rw (pos-mul-negsuc a n, mul_comm a (wide_modulus - suc n))
      (mixed-Fit (suc n) a (omega arith) (omega arith))
product-Fit {a} {b} (below_zero_by k l) (from_zero m) =
    rw (negsuc-mul-pos k b) (mixed-Fit (suc k) b (omega arith) (omega arith))
product-Fit {a} {b} (below_zero_by k l) (below_zero_by n m) =
    rw (negsuc-mul-negsuc k n, both-product (suc k) (suc n) (omega arith) (omega arith))
      (above-Fit (suc k * suc n) (product-bound (suc k) (suc n) (omega arith) (omega arith)))

-- __mul_overflow_p on two values of type int reports an overflow exactly if the product is no int, and
-- otherwise stores it.
pub mul_overflow_p-Fit :
    (a b : ℕ) → a < modulus → b < modulus → Fit (int a *ℤ int b) (mul_overflow_p a b)
unfolding mul_overflow_p
mul_overflow_p-Fit a b l m = product-Fit (int-Signed a l) (int-Signed b m)
