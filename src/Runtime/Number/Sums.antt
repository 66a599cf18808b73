-- ===== src/Runtime/Number/Sums.antt =====
-- The arithmetic built-ins of src/runtime/number.c on integers.
use llscheme.Base.{ℕ, suc, ◌<◌, ◌≡◌, refl, none, List, [], ◌∷◌, ℤ, pos, arith, length}
use llscheme.Base.Signed.{◌+ℤ◌, ◌-ℤ◌, ◌*ℤ◌}
use llscheme.Base.Outcome.{Outcome, ok}
use llscheme.Runtime.Utils.{check_args_count}
use llscheme.Runtime.Number.{Gmp}
use llscheme.Runtime.Number.Arith.{ArithOp, minus}
use llscheme.Runtime.Number.Objects.{
  Number, Argument, a_number, number_of, count_args, new_number, duplicate_number,
}
use llscheme.Runtime.Number.Builtins.{
  arith2, arith_parts, each_part, multiply_parts, arith_from, from_first, arith_all, builtin_plus,
  builtin_minus, builtin_multiply,
}
use llscheme.Runtime.Number.Multiply.{int}
use llscheme.Runtime.Number.Exact.{
  IntegerLaws, RingOp, adds, subtracts, multiplies, Integer, as_small, Exactly, re_arith2-Exactly,
}

module _ {g : Gmp} (laws : IntegerLaws g) where
  -- an object that is an integer, without an imaginary part
  pub record Whole (n : Number g) (x : ℤ) : Type 0 where
    pub real : Integer laws n.re x
    pub alone : n.im ≡ none

  pub data Integers : List (Argument g) → List ℤ → Type 0 where
    no_integers : Integers [] []
    one_integer :
        {n : Number g} {x : ℤ} {as' : List (Argument g)} {xs : List ℤ}
        → Whole n x
        → Integers as' xs
        → Integers (a_number n ∷ as') (x ∷ xs)

  unfoldable pub WholeResult : Outcome (Number g) → ℤ → Type 0
  WholeResult o x = (n : Number g) × (o ≡ ok n) × Whole n x

abbrev pub fold : (ℤ → ℤ → ℤ) → ℤ → List ℤ → ℤ
fold f x [] = x
fold f x (y ∷ ys) = fold f (f x y) ys

-- what `-` means: of one integer, its negative
abbrev pub difference : ℤ → List ℤ → ℤ
difference x [] = pos 0 -ℤ x
difference x (y ∷ ys) = fold ◌-ℤ◌ x (y ∷ ys)

module _ {g : Gmp} (laws : IntegerLaws g) where
  arith2-Whole :
      {op : ArithOp} {f : ℤ → ℤ → ℤ} (m n : Number g) {x y : ℤ}
      → RingOp op f
      → Whole laws m x
      → Whole laws n y
      → WholeResult laws (arith2 g op m n) (f x y)
  unfolding arith2 arith_parts each_part multiply_parts WholeResult Exactly
  arith2-Whole m n adds h k =
      let (r, e, i) = re_arith2-Exactly laws adds h.real k.real in
      rw (h.alone, k.alone, e) (_, refl, record { real = i; alone = refl })
  arith2-Whole m n subtracts h k =
      let (r, e, i) = re_arith2-Exactly laws subtracts h.real k.real in
      rw (h.alone, k.alone, e) (_, refl, record { real = i; alone = refl })
  arith2-Whole m n multiplies h k =
      let (r, e, i) = re_arith2-Exactly laws multiplies h.real k.real in
      rw (h.alone, k.alone, e) (_, refl, record { real = i; alone = refl })

  arith_from-Whole :
      {op : ArithOp} {f : ℤ → ℤ → ℤ} (m : Number g) {x : ℤ} {as' : List (Argument g)} {xs : List ℤ}
      → RingOp op f
      → Whole laws m x
      → Integers laws as' xs
      → WholeResult laws (arith_from g op m as') (fold f x xs)
  unfolding arith_from number_of WholeResult
  arith_from-Whole m r h no_integers = (m, refl, h)
  arith_from-Whole m r h (one_integer {n} k ks) =
      let (m', e, h') = arith2-Whole m n r h k in rw e (arith_from-Whole m' r h' ks)

  new_number-Whole : (v : ℕ) → v < 2147483648 → Whole laws (new_number g v) (pos v)
  unfolding int
  new_number-Whole v l = record { real = as_small v (omega arith) (ground arith); alone = refl }

  -- Over a GMP whose integers are exact, + on numbers that are integers, each an int exactly if its value
  -- is one, gives their sum as such a number.
  pub builtin_plus-Whole :
      {args : List (Argument g)} {xs : List ℤ}
      → Integers laws args xs
      → WholeResult laws (builtin_plus g args) (fold ◌+ℤ◌ (pos 0) xs)
  unfolding builtin_plus arith_all
  builtin_plus-Whole h = arith_from-Whole _ adds (new_number-Whole 0 (omega arith)) h

  -- Over a GMP whose integer operations are exact, * of integers is their product, an int if the product
  -- is one.
  pub builtin_multiply-Whole :
      {args : List (Argument g)} {xs : List ℤ}
      → Integers laws args xs
      → WholeResult laws (builtin_multiply g args) (fold ◌*ℤ◌ (pos 1) xs)
  unfolding builtin_multiply arith_all
  builtin_multiply-Whole h = arith_from-Whole _ multiplies (new_number-Whole 1 (omega arith)) h

  count-args_one : (n : ℕ) → count_args 1 0 (suc n) ≡ ok tt
  unfolding count_args check_args_count
  count-args_one n = ground arith

  duplicate-Whole : (n : Number g) {x : ℤ} → Whole laws n x → Whole laws (duplicate_number g n) x
  duplicate-Whole n h = record { real = h.real; alone = rw (h.alone) refl }

  from_first-Whole :
      {n : Number g} {x : ℤ} {as' : List (Argument g)} {xs : List ℤ}
      → Whole laws n x
      → Integers laws as' xs
      → WholeResult laws (from_first g minus 0 (a_number n ∷ as')) (difference x xs)
  unfolding from_first number_of
  from_first-Whole h no_integers =
      arith_from-Whole _ subtracts (new_number-Whole 0 (omega arith)) (one_integer h no_integers)
  from_first-Whole {n} h (one_integer k ks) =
      arith_from-Whole _ subtracts (duplicate-Whole n h) (one_integer k ks)

  -- Over a GMP whose integers are exact, - on numbers that are integers, at least one and each an int
  -- exactly if its value is one, gives the first less the others, or the opposite of a single one, as such
  -- a number.
  pub builtin_minus-Whole :
      {n : Number g} {x : ℤ} {as' : List (Argument g)} {xs : List ℤ}
      → Whole laws n x
      → Integers laws as' xs
      → WholeResult laws (builtin_minus g (a_number n ∷ as')) (difference x xs)
  unfolding builtin_minus arith_all
  builtin_minus-Whole {as'} h hs = rw (count-args_one (length as')) (from_first-Whole h hs)
