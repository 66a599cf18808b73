-- ===== src/Runtime/Number/Ordered.antt =====
-- `_order` of src/runtime/number.c on integers, against their order.
use llscheme.Base.{
  ℕ, ◌+◌, ◌≤◌, ◌<◌, ◌≡◌, refl, sym, ap, subst, ◌∙◌, Bool, true, false, not, ◌&&◌, List, [], ◌∷◌,
  ltb, ◌==◌, arith, if◌then◌else◌, ℤ, inl, inr,
}
use llscheme.Base.Signed.{above, below}
use llscheme.Base.Outcome.{ok}
use llscheme.Runtime.Small.{modulus, sign_bit, order2_small}
use llscheme.Runtime.Number.{Sign, negative, equal, positive, Gmp, Real}
use llscheme.Runtime.Number.Order.{opposite, sign_of, re_order2}
use llscheme.Runtime.Number.Objects.{Number, Argument, a_number, number_of, is_real, is_equal}
use llscheme.Runtime.Number.Comparisons.{
  OrderOp, eq, lt, gt, le, ge, holds, orderable, compare_with, order_from, order,
}
use llscheme.Runtime.Number.Multiply.{int, TooBig}
use llscheme.Runtime.Number.Exact.{IntegerLaws, Integer, as_small, as_big}
use llscheme.Runtime.Number.Sums.{Whole, Integers, no_integers, one_integer}

-- the order of integers: `x < y`
abbrev pub less : ℤ → ℤ → Bool
less x y = ltb (above x + below y) (above y + below x)

abbrev pub sign_between : ℤ → ℤ → Sign
sign_between x y = if less x y then negative else if less y x then positive else equal

-- whether two integers stand in an order
abbrev pub stands : OrderOp → ℤ → ℤ → Bool
stands eq x y = above x + below y == above y + below x
stands lt x y = less x y
stands gt x y = less y x
stands le x y = not (less y x)
stands ge x y = not (less x y)

-- whether each of a list of integers stands in the order to the one behind it
abbrev pub in_order : OrderOp → List ℤ → Bool
in_order op [] = true
in_order op (x ∷ []) = true
in_order op (x ∷ y ∷ ys) = stands op x y && in_order op (y ∷ ys)

-- Two integers with a difference that is an `int`, or of which one is itself none.
pub data Near (x y : ℤ) : Type 0 where
  difference_fits :
      above x + below y < above y + below x + sign_bit
      → above y + below x ≤ above x + below y + sign_bit
      → Near x y
  left_too_big : TooBig x → Near x y
  right_too_big : TooBig y → Near x y

pub data AllNear : List ℤ → Type 0 where
  none_near : AllNear []
  one_near : (x : ℤ) → AllNear (x ∷ [])
  more_near : {x y : ℤ} {ys : List ℤ} → Near x y → AllNear (y ∷ ys) → AllNear (x ∷ y ∷ ys)

holds-stands : (op : OrderOp) (x y : ℤ) → holds op (sign_between x y) ≡ stands op x y
holds-stands eq x y = ground arith
holds-stands lt x y = ground arith
holds-stands gt x y = ground arith
holds-stands le x y = ground arith
holds-stands ge x y = ground arith

small_order :
    (a b : ℕ)
    → a < modulus
    → b < modulus
    → Near (int a) (int b)
    → sign_of (order2_small a b) ≡ sign_between (int a) (int b)
unfolding order2_small int
small_order a b l m (difference_fits h k) = ground arith
small_order a b l m (left_too_big (inl h)) = absurd (ground arith)
small_order a b l m (left_too_big (inr h)) = absurd (ground arith)
small_order a b l m (right_too_big (inl h)) = absurd (ground arith)
small_order a b l m (right_too_big (inr h)) = absurd (ground arith)

opposite-sign_between : (x y : ℤ) → opposite (sign_between y x) ≡ sign_between x y
opposite-sign_between x y = ground arith

-- What GMP documents of the comparisons of its integers.
pub record OrderLaws {g : Gmp} (laws : IntegerLaws g) : Type 0 where
  pub cmp : (x y : g.Z) → g.z_cmp x y ≡ sign_between (laws.value x) (laws.value y)
  pub cmp_si :
      (x : g.Z) (v : ℕ) → v < modulus → g.z_cmp_si x v ≡ sign_between (laws.value x) (int v)

same_signs :
    {s : Sign} {x x' y y' : ℤ} → x ≡ x' → y ≡ y' → s ≡ sign_between x y → s ≡ sign_between x' y'
same_signs {s} {x'} {y} e h k =
    subst (λ y. s ≡ sign_between x' y) h (subst (λ x. s ≡ sign_between x y) e k)

module _ {g : Gmp} (laws : IntegerLaws g) (order_laws : OrderLaws laws) where
  re_order2-Integer :
      {r s : Real g} {x y : ℤ}
      → Integer laws r x
      → Integer laws s y
      → Near x y
      → re_order2 g r s ≡ sign_between x y
  unfolding re_order2
  re_order2-Integer {y} (as_small a l e) (as_small b m h) n =
      same_signs e h (
        small_order a b l m (subst (λ y. Near (int a) y) (sym h) (subst (λ x. Near x y) (sym e) n)))
  re_order2-Integer (as_big z i e) (as_small b m h) n = same_signs e h (order_laws.cmp_si z b m)
  re_order2-Integer {x} {y} (as_small a l e) (as_big z i h) n =
      ap opposite (same_signs h e (order_laws.cmp_si z a l)) ∙ opposite-sign_between x y
  re_order2-Integer (as_big z i e) (as_big w j h) n = same_signs e h (order_laws.cmp z w)

  both_whole : (s : Sign) → (if is_equal g s then equal else s) ≡ s
  both_whole negative = refl
  both_whole equal = refl
  both_whole positive = refl

  compare_with-Whole :
      (op : OrderOp) (m n : Number g) {x y : ℤ}
      → Whole laws m x
      → Whole laws n y
      → Near x y
      → compare_with g op m n ≡ sign_between x y
  unfolding compare_with re_order2 order2_small
  compare_with-Whole eq m n h k near =
      rw (h.alone, k.alone) (both_whole _ ∙ re_order2-Integer h.real k.real near)
  compare_with-Whole lt m n h k near = re_order2-Integer h.real k.real near
  compare_with-Whole gt m n h k near = re_order2-Integer h.real k.real near
  compare_with-Whole le m n h k near = re_order2-Integer h.real k.real near
  compare_with-Whole ge m n h k near = re_order2-Integer h.real k.real near

  orderable-Whole :
      (op : OrderOp) (n : Number g) {x : ℤ} → Whole laws n x → orderable g op (a_number n) ≡ ok n
  unfolding orderable number_of is_real
  orderable-Whole eq n h = refl
  orderable-Whole lt n h = rw h.alone refl
  orderable-Whole gt n h = rw h.alone refl
  orderable-Whole le n h = rw h.alone refl
  orderable-Whole ge n h = rw h.alone refl

  chosen : (b c : Bool) → (if b then ok c else ok false) ≡ ok (b && c)
  chosen true c = refl
  chosen false c = refl

  order_from-Whole :
      (op : OrderOp) (m : Number g) {x : ℤ} {as' : List (Argument g)} {xs : List ℤ}
      → Whole laws m x
      → Integers laws as' xs
      → AllNear (x ∷ xs)
      → order_from g op m as' ≡ ok (in_order op (x ∷ xs))
  unfolding order_from
  order_from-Whole op m h no_integers near = refl
  order_from-Whole op m {x} h (one_integer {n} {x = y} {xs} k ks) (more_near near rest) =
      rw
        (
          orderable-Whole op n k,
          compare_with-Whole op m n h k near,
          holds-stands op x y,
          order_from-Whole op n k ks rest,
        )
        (chosen (stands op x y) (in_order op (y ∷ xs)))

  -- Over a GMP that orders its integers, a comparison (=, <, >, <= or >=) of numbers that are integers,
  -- each an int exactly if its value is one, answers whether each integer stands in that order to the one
  -- behind it, given that the difference of neighbours that are both int is an int.
  pub order-in_order :
      (op : OrderOp) {as' : List (Argument g)} {xs : List ℤ}
      → Integers laws as' xs
      → AllNear xs
      → order g op as' ≡ ok (in_order op xs)
  unfolding order
  order-in_order op no_integers near = refl
  order-in_order op (one_integer {n} k ks) near =
      rw (orderable-Whole op n k) (order_from-Whole op n k ks near)
