-- ===== src/Runtime/Number/Exact.antt =====
-- `_re_arith2` of src/runtime/include/number.h on integers, over a GMP that computes with integers.
use llscheme.Base.{
  ℕ, ◌<◌, ◌≡◌, refl, sym, ap, subst, ◌∙◌, Bool, true, false, Bool-cases, Option-cases, inl, inr,
  arith, if◌then◌else◌, Option, some, ℤ, pos,
}
use llscheme.Base.Signed.{◌+ℤ◌, ◌-ℤ◌, ◌*ℤ◌, opposite_ℤ, add-opposite, sub-opposite, opposite-mul}
use llscheme.Base.Outcome.{Outcome, ok, and_then}
use llscheme.Runtime.Small.{modulus, add_overflow_p, sub_overflow_p, si_to_ui}
use llscheme.Runtime.Number.{
  Gmp, Real, small, big, divided, re_promote, promoted, canonicalize_z, re_canonicalize,
}
use llscheme.Runtime.Number.Arith.{
  ArithOp, plus, minus, times, stays, promotes, or_promote, arith_small, arith_case,
  is_negative_sign, with_int, same_type, for_division, promoted_both, by_types, arith_gmp,
  after_small, re_arith2,
}
use llscheme.Runtime.Number.Multiply.{int, TooBig, Fit, fits, too_big, mul_overflow_p-Fit}

-- What GMP documents of its integers, by the value of each: exact results, an `int` from a value that is
-- one, and the test for that.
pub record IntegerLaws (g : Gmp) : Type 0 where
  pub value : g.Z → ℤ
  pub set_si : (v : ℕ) → v < modulus → value (g.z_set_si v) ≡ int v
  pub get_si :
      (z : g.Z)
      → g.z_fits_sint_p z ≡ true
      → (g.z_get_si z < modulus) × (int (g.z_get_si z) ≡ value z)
  pub no_int : (z : g.Z) → g.z_fits_sint_p z ≡ false → TooBig (value z)
  pub add : (x y : g.Z) → value (g.z.add x y) ≡ value x +ℤ value y
  pub sub : (x y : g.Z) → value (g.z.sub x y) ≡ value x -ℤ value y
  pub mul : (x y : g.Z) → value (g.z.mul x y) ≡ value x *ℤ value y
  pub add_ui : (x : g.Z) (u : ℕ) → value (g.z_ui.add x u) ≡ value x +ℤ pos u
  pub sub_ui : (x : g.Z) (u : ℕ) → value (g.z_ui.sub x u) ≡ value x -ℤ pos u
  pub mul_ui : (x : g.Z) (u : ℕ) → value (g.z_ui.mul x u) ≡ value x *ℤ pos u
  pub neg : (x : g.Z) → value (g.z_neg x) ≡ opposite_ℤ (value x)

-- the operations that stay among the integers, and what they mean
pub data RingOp : ArithOp → (ℤ → ℤ → ℤ) → Type 0 where
  adds : RingOp plus ◌+ℤ◌
  subtracts : RingOp minus ◌-ℤ◌
  multiplies : RingOp times ◌*ℤ◌

small-sum :
    (a b t : ℕ)
    → a < modulus
    → b < modulus
    → add_overflow_p a b ≡ some t
    → (t < modulus) × (int t ≡ int a +ℤ int b)
unfolding int add_overflow_p ◌+ℤ◌
small-sum a b t l m e = (ground arith, ground arith)

small-difference :
    (a b t : ℕ)
    → a < modulus
    → b < modulus
    → sub_overflow_p a b ≡ some t
    → (t < modulus) × (int t ≡ int a -ℤ int b)
unfolding int sub_overflow_p ◌-ℤ◌
small-difference a b t l m e = (ground arith, ground arith)

int-above :
    (v : ℕ) → v < modulus → is_negative_sign (si_to_ui v).0 ≡ false → int v ≡ pos (si_to_ui v).1
unfolding int si_to_ui
int-above v l e = ground arith

int-below :
    (v : ℕ)
    → v < modulus
    → is_negative_sign (si_to_ui v).0 ≡ true
    → int v ≡ opposite_ℤ (pos (si_to_ui v).1)
unfolding int si_to_ui
int-below v l e = ground arith

module _ {g : Gmp} (laws : IntegerLaws g) where
  -- a number that stands for an integer in the one way that is allowed
  pub data Integer : Real g → ℤ → Type 0 where
    as_small : {x : ℤ} (v : ℕ) → v < modulus → int v ≡ x → Integer (small v) x
    as_big : {x : ℤ} (z : g.Z) → TooBig x → laws.value z ≡ x → Integer (big z) x

  pub canonicalize_z-Integer : (z : g.Z) {x : ℤ} → laws.value z ≡ x → Integer (canonicalize_z g z) x
  unfolding canonicalize_z
  canonicalize_z-Integer z e = elim (Bool-cases (g.z_fits_sint_p z)) [
    | inl h ↦ let (l, k) = laws.get_si z h in rw h (as_small (g.z_get_si z) l (k ∙ e))
    | inr h ↦ rw h (as_big z (rw (sym e) (laws.no_int z h)) e)
  ]

  -- an integer of GMP from one case of a macro
  record Result (o : Option g.Z) (x : ℤ) : Type 0 where
    number : g.Z
    there : o ≡ some number
    exact : laws.value number ≡ x

  int_case :
      {op : ArithOp} {f : ℤ → ℤ → ℤ} (z : g.Z) (u : ℕ) (n : Bool) (y : ℤ)
      → RingOp op f
      → y ≡ (if n then opposite_ℤ (pos u) else pos u)
      → Result (arith_case g.z_ui g.z_neg op n z u) (f (laws.value z) y)
  unfolding arith_case
  int_case z u true y adds e = record {
    number = _;
    there = refl;
    exact =
        laws.sub_ui z u ∙ add-opposite (laws.value z) (pos u) ∙ ap (λ y. laws.value z +ℤ y) (sym e);
  }
  int_case z u false y adds e = record {
    number = _;
    there = refl;
    exact = laws.add_ui z u ∙ ap (λ y. laws.value z +ℤ y) (sym e);
  }
  int_case z u true y subtracts e = record {
    number = _;
    there = refl;
    exact =
        laws.add_ui z u ∙ sub-opposite (laws.value z) (pos u) ∙ ap (λ y. laws.value z -ℤ y) (sym e);
  }
  int_case z u false y subtracts e = record {
    number = _;
    there = refl;
    exact = laws.sub_ui z u ∙ ap (λ y. laws.value z -ℤ y) (sym e);
  }
  int_case z u true y multiplies e = record {
    number = _;
    there = refl;
    exact =
        laws.neg (g.z_ui.mul z u)
        ∙ ap opposite_ℤ (laws.mul_ui z u)
        ∙ opposite-mul (laws.value z) (pos u)
        ∙ ap (λ y. laws.value z *ℤ y) (sym e);
  }
  int_case z u false y multiplies e = record {
    number = _;
    there = refl;
    exact = laws.mul_ui z u ∙ ap (λ y. laws.value z *ℤ y) (sym e);
  }

  big_case :
      {op : ArithOp} {f : ℤ → ℤ → ℤ} (z w : g.Z)
      → RingOp op f
      → Result (arith_case g.z g.z_neg op false z w) (f (laws.value z) (laws.value w))
  unfolding arith_case
  big_case z w adds = record { number = _; there = refl; exact = laws.add z w }
  big_case z w subtracts = record { number = _; there = refl; exact = laws.sub z w }
  big_case z w multiplies = record { number = _; there = refl; exact = laws.mul z w }

  -- a real number that is the integer `x`
  unfoldable pub Exactly : Outcome (Real g) → ℤ → Type 0
  Exactly o x = (r : Real g) × (o ≡ ok r) × Integer r x

  canonical-Exactly :
      {o : Option g.Z} {x : ℤ}
      → Result o x
      → Exactly (and_then (divided big o) (re_canonicalize g)) x
  unfolding Exactly re_canonicalize
  canonical-Exactly h = rw h.there (_, refl, canonicalize_z-Integer h.number h.exact)

  int_sign :
      (v : ℕ)
      → v < modulus
      → int v ≡ (
          if is_negative_sign (si_to_ui v).0
          then opposite_ℤ (pos (si_to_ui v).1)
          else pos (si_to_ui v).1)
  int_sign v l = elim (Bool-cases (is_negative_sign (si_to_ui v).0)) [
    | inl e ↦ rw e (int-below v l e)
    | inr e ↦ rw e (int-above v l e)
  ]

  same_integers :
      (o : Outcome (Real g)) (f : ℤ → ℤ → ℤ) {x x' y y' : ℤ}
      → x ≡ x'
      → y ≡ y'
      → Exactly o (f x y)
      → Exactly o (f x' y')
  same_integers o f {x'} {y} e h k =
      subst (λ y. Exactly o (f x' y)) h (subst (λ x. Exactly o (f x y)) e k)

  with_int-Exactly :
      {op : ArithOp} {f : ℤ → ℤ → ℤ} (z : g.Z) (b : ℕ) {x y : ℤ}
      → RingOp op f
      → laws.value z ≡ x
      → b < modulus
      → int b ≡ y
      → Exactly (and_then (with_int g op (big z) b) (re_canonicalize g)) (f x y)
  unfolding with_int
  with_int-Exactly {op} {f} z b r e l h =
      let sgn = (si_to_ui b).0 in
      let c = int_case z (si_to_ui b).1 (is_negative_sign sgn) (int b) r (int_sign b l) in
      same_integers _ f e h (canonical-Exactly c)

  two_big-Exactly :
      {op : ArithOp} {f : ℤ → ℤ → ℤ} (z w : g.Z) {x y : ℤ}
      → RingOp op f
      → laws.value z ≡ x
      → laws.value w ≡ y
      → Exactly (and_then (same_type g op (big z) (big w)) (re_canonicalize g)) (f x y)
  unfolding same_type
  two_big-Exactly {op} {f} z w r e h = same_integers _ f e h (canonical-Exactly (big_case z w r))

  -- the promotion of a small result, once the sum, difference or product has overflown
  overflown :
      {op : ArithOp} {f : ℤ → ℤ → ℤ} (a b : ℕ)
      → RingOp op f
      → a < modulus
      → b < modulus
      → Exactly (after_small g op a b (promotes 1)) (f (int a) (int b))
  unfolding after_small arith_gmp by_types for_division re_promote promoted
  overflown a b adds l m = with_int-Exactly _ b adds (laws.set_si a l) m refl
  overflown a b subtracts l m = with_int-Exactly _ b subtracts (laws.set_si a l) m refl
  overflown a b multiplies l m = with_int-Exactly _ b multiplies (laws.set_si a l) m refl

  kept-Exactly :
      (op : ArithOp) (a b t : ℕ) {x : ℤ}
      → t < modulus
      → int t ≡ x
      → Exactly (after_small g op a b (stays t)) x
  unfolding Exactly after_small
  kept-Exactly op a b t l e = (small t, refl, as_small t l e)

  product-Exactly :
      (a b : ℕ) {o : Option ℕ}
      → a < modulus
      → b < modulus
      → Fit (int a *ℤ int b) o
      → Exactly (after_small g times a b (or_promote 1 o)) (int a *ℤ int b)
  product-Exactly a b l m (fits t n e) = kept-Exactly times a b t n e
  product-Exactly a b l m (too_big h) = overflown a b multiplies l m

  small-Exactly :
      {op : ArithOp} {f : ℤ → ℤ → ℤ} (a b : ℕ)
      → RingOp op f
      → a < modulus
      → b < modulus
      → Exactly (re_arith2 g op (small a) (small b)) (f (int a) (int b))
  unfolding re_arith2 arith_small
  small-Exactly a b adds l m = elim (Option-cases (add_overflow_p a b)) [
    | inl e ↦ rw e (overflown a b adds l m)
    | inr (t, e) ↦ let (n, h) = small-sum a b t l m e in rw e (kept-Exactly plus a b t n h)
  ]
  small-Exactly a b subtracts l m = elim (Option-cases (sub_overflow_p a b)) [
    | inl e ↦ rw e (overflown a b subtracts l m)
    | inr (t, e) ↦ let (n, h) = small-difference a b t l m e in rw e (kept-Exactly minus a b t n h)
  ]
  small-Exactly a b multiplies l m = product-Exactly a b l m (mul_overflow_p-Fit a b l m)

  -- Over a GMP whose integers are exact, _re_arith2 with + - or * on two integers, each an int exactly if
  -- its value is one, gives the exact sum, difference or product, again an int exactly if the value is
  -- one.
  pub re_arith2-Exactly :
      {op : ArithOp} {f : ℤ → ℤ → ℤ} {d s : Real g} {x y : ℤ}
      → RingOp op f
      → Integer d x
      → Integer s y
      → Exactly (re_arith2 g op d s) (f x y)
  unfolding re_arith2 arith_gmp by_types for_division promoted_both re_promote promoted
  re_arith2-Exactly {op} {f} r (as_small a l e) (as_small b m h) =
      same_integers _ f e h (small-Exactly a b r l m)
  re_arith2-Exactly adds (as_big z n e) (as_small b m h) = with_int-Exactly z b adds e m h
  re_arith2-Exactly subtracts (as_big z n e) (as_small b m h) = with_int-Exactly z b subtracts e m h
  re_arith2-Exactly multiplies (as_big z n e) (as_small b m h) =
      with_int-Exactly z b multiplies e m h
  re_arith2-Exactly adds (as_small a l e) (as_big w n h) =
      two_big-Exactly _ w adds (laws.set_si a l ∙ e) h
  re_arith2-Exactly subtracts (as_small a l e) (as_big w n h) =
      two_big-Exactly _ w subtracts (laws.set_si a l ∙ e) h
  re_arith2-Exactly multiplies (as_small a l e) (as_big w n h) =
      two_big-Exactly _ w multiplies (laws.set_si a l ∙ e) h
  re_arith2-Exactly adds (as_big z n e) (as_big w m h) = two_big-Exactly z w adds e h
  re_arith2-Exactly subtracts (as_big z n e) (as_big w m h) = two_big-Exactly z w subtracts e h
  re_arith2-Exactly multiplies (as_big z n e) (as_big w m h) = two_big-Exactly z w multiplies e h
