-- ===== src/Runtime/Number/Divide.antt =====
-- The division of two small numbers in `_re_arith2` of src/runtime/include/number.h.
use llscheme.Base.{
  ℕ, ◌+◌, ◌-◌, ◌*◌, ◌≤◌, ◌<◌, ◌≡◌, ◌≢◌, refl, sym, ap, ◌∙◌, Bool, true, false, not, ◌&&◌, ◌||◌,
  Bool-cases, inl, inr, ◌==◌, arith, if◌then◌else◌, pos,
}
use llscheme.Base.Signed.{◌*ℤ◌, opposite_ℤ, pos-mul-pos, opposite-mul, mul-opposite}
use llscheme.Base.Outcome.{Outcome, ok, fault, division_by_zero, signed_overflow}
use native.Mathlib.Nat.{div-add-mod, div-le_self, mul_comm, mul-le-mul_left}
use Prim.Native.Nat.{◌%◌, ◌/◌}
use llscheme.Runtime.Small.{modulus, sign_bit, below_zero, si_to_ui}
use llscheme.Runtime.Number.Arith.{Plain, stays, promotes, int_div, divide_small}
use llscheme.Runtime.Number.Multiply.{int}

abbrev abs : ℕ → ℕ
abs v = (si_to_ui v).1

int-below_zero : (v : ℕ) → v < modulus → below_zero v ≡ true → int v ≡ opposite_ℤ (pos (abs v))
unfolding int si_to_ui
int-below_zero v l e = ground arith

int-not_below : (v : ℕ) → v < modulus → below_zero v ≡ false → int v ≡ pos (abs v)
unfolding int si_to_ui
int-not_below v l e = ground arith

-- What comes of `a / b`: the four cases exclude each other.
pub data Quotient (a b : ℕ) : Outcome Plain → Type 0 where
  by_zero : b ≡ 0 → Quotient a b (fault division_by_zero)
  no_quotient : a ≡ sign_bit → b ≡ modulus - 1 → Quotient a b (fault signed_overflow)
  exact :
      (t : ℕ)
      → b ≢ 0
      → (a ≡ sign_bit → b ≢ modulus - 1)
      → t < modulus
      → int t *ℤ int b ≡ int a
      → Quotient a b (ok (stays t))
  remainder : b ≢ 0 → abs a % abs b ≢ 0 → Quotient a b (ok (promotes 2))

branches :
    {A : Type 0} (P : A → Type 0) (c : Bool) {x y : A}
    → (c ≡ true → P x)
    → (c ≡ false → P y)
    → P (if c then x else y)
branches P true f g = f refl
branches P false f g = g refl

opposite-opposite : (n : ℕ) → opposite_ℤ (opposite_ℤ (pos n)) ≡ pos n
opposite-opposite n = ground arith

int-small : (m : ℕ) → m < sign_bit → int m ≡ pos m
unfolding int
int-small m l = ground arith

int-opposite :
    (m : ℕ)
    → m ≤ sign_bit
    → ((modulus - m) % modulus < modulus) × (int ((modulus - m) % modulus) ≡ opposite_ℤ (pos m))
unfolding int
int-opposite m l = (ground arith, ground arith)

abs-bound : (v : ℕ) → v < modulus → abs v ≤ sign_bit
unfolding si_to_ui
abs-bound v l = ground arith

abs-bound_above : (v : ℕ) → v < modulus → below_zero v ≡ false → abs v < sign_bit
unfolding si_to_ui
abs-bound_above v l e = ground arith

-- a negative `int` by its absolute value
negative-abs : (v : ℕ) → v < modulus → below_zero v ≡ true → v + abs v ≡ modulus
unfolding si_to_ui
negative-abs v l e = ground arith

module _ (a b : ℕ) (l : a < modulus) (k : b < modulus) (e : abs a % abs b ≡ 0) where
  abbrev m : ℕ
  m = abs a / abs b

  factors : m * abs b ≡ abs a
  factors = omega (arith, div-add-mod (abs a) (abs b), mul_comm (abs b) m, e)

  product : pos m *ℤ pos (abs b) ≡ pos (abs a)
  product = pos-mul-pos m (abs b) ∙ ap pos factors

  m-bound : m ≤ abs a
  m-bound = div-le_self (abs a) (abs b)

  above_above :
      below_zero a ≡ false → below_zero b ≡ false → (m < sign_bit) × (int m *ℤ int b ≡ int a)
  above_above h h' =
      let n : m < sign_bit = omega (arith, m-bound, abs-bound_above a l h) in
      (n, rw (int-small m n, int-not_below b k h', int-not_below a l h) product)

  below_below : below_zero a ≡ true → below_zero b ≡ true → m < sign_bit → int m *ℤ int b ≡ int a
  below_below h h' n =
      rw (int-small m n, int-below_zero b k h', int-below_zero a l h)
        (sym (opposite-mul (pos m) (pos (abs b))) ∙ ap opposite_ℤ product)

  abbrev opposite_m : ℕ
  opposite_m = (modulus - m) % modulus

  mixed-fits : (opposite_m < modulus) × (int opposite_m ≡ opposite_ℤ (pos m))
  mixed-fits = int-opposite m (omega (arith, m-bound, abs-bound a l))

  below_above : below_zero a ≡ true → below_zero b ≡ false → int opposite_m *ℤ int b ≡ int a
  below_above h h' =
      rw (mixed-fits.1, int-not_below b k h', int-below_zero a l h)
        (mul-opposite (pos m) (pos (abs b)) ∙ ap opposite_ℤ product)

  above_below : below_zero a ≡ false → below_zero b ≡ true → int opposite_m *ℤ int b ≡ int a
  above_below h h' =
      rw (mixed-fits.1, int-below_zero b k h', int-not_below a l h)
        (mul-opposite (pos m) (opposite_ℤ (pos (abs b)))
          ∙ ap opposite_ℤ (sym (opposite-mul (pos m) (pos (abs b))) ∙ ap opposite_ℤ product)
          ∙ opposite-opposite (abs a))

  -- Only INT_MIN and -1 have a quotient of 2 ^ 31.
  below_below-bound :
      below_zero a ≡ true
      → below_zero b ≡ true
      → (a == sign_bit && b == modulus - 1) ≡ false
      → m < sign_bit
  below_below-bound h h' n = elim (Bool-cases (abs b == 1)) [
    | inl one ↦ ground (arith, m-bound, abs-bound a l, negative-abs a l h, negative-abs b k h')
    | inr more ↦
        let two : 2 ≤ abs b = ground (arith, negative-abs b k h') in
        let doubled : m * 2 ≤ m * abs b = mul-le-mul_left m two in
        omega (arith, doubled, factors, abs-bound a l)
  ]

  int_div-Quotient :
      (b == 0) ≡ false
      → (a == sign_bit && b == modulus - 1) ≡ false
      → Quotient a b (ok (stays (int_div a b)))
  unfolding int_div si_to_ui
  int_div-Quotient z h =
      branches (λ t. Quotient a b (ok (stays t)))
        (below_zero a && not (below_zero b) || not (below_zero a) && below_zero b) mixed-exact
        same-exact
    where
      not_zero : b ≢ 0
      not_zero o = ground arith

      not_last : a ≡ sign_bit → b ≢ modulus - 1
      not_last i o = ground arith

      mixed-exact :
          (below_zero a && not (below_zero b) || not (below_zero a) && below_zero b) ≡ true
          → Quotient a b (ok (stays opposite_m))
      mixed-exact e = elim (Bool-cases (below_zero a)) [
        | inl x ↦ exact opposite_m not_zero not_last (mixed-fits.0) (below_above x (ground arith))
        | inr x ↦ exact opposite_m not_zero not_last (mixed-fits.0) (above_below x (ground arith))
      ]

      same-exact :
          (below_zero a && not (below_zero b) || not (below_zero a) && below_zero b) ≡ false
          → Quotient a b (ok (stays m))
      same-exact e = elim (Bool-cases (below_zero a)) [
        | inl x ↦
            let y : below_zero b ≡ true = ground arith in
            let n : m < sign_bit = below_below-bound x y h in
            exact m not_zero not_last (omega (arith, n)) (below_below x y n)
        | inr x ↦
            let (n, product_of) = above_above x (ground arith) in
            exact m not_zero not_last (omega (arith, n)) product_of
      ]

-- Two values a and b of type int divide as follows: exactly if b = 0, or a is INT_MIN and b is -1, C
-- leaves the division undefined; else, if the remainder of the absolute values is not 0, the result is
-- promoted to a rational; and else it is an int whose product with b is a.
pub divide_small-Quotient : (a b : ℕ) → a < modulus → b < modulus → Quotient a b (divide_small a b)
unfolding divide_small si_to_ui
divide_small-Quotient a b l k =
    branches (Quotient a b) (b == 0) (λ z. by_zero (ground arith))
      (λ z.
        branches (Quotient a b) (a == sign_bit && b == modulus - 1)
          (λ s. no_quotient (ground arith) (ground arith))
          (λ s.
            branches (Quotient a b) (abs a % abs b == 0)
              (λ r. int_div-Quotient a b l k (ground arith) z s)
              (λ r. remainder (λ o. ground arith) (ground arith))))
