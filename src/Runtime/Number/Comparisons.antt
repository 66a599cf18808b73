-- ===== src/Runtime/Number/Comparisons.antt =====
-- `_order` and the built-in comparisons of src/runtime/number.c.
use llscheme.Base.{Bool, true, false, List, [], ◌∷◌, codes, if◌then◌else◌}
use llscheme.Base.Outcome.{Outcome, ok}
use llscheme.Runtime.Number.{Sign, negative, equal, positive, Gmp, ◌>>=◌}
use llscheme.Runtime.Number.Order.{re_order2}
use llscheme.Runtime.Number.Objects.{
  Number, Argument, a_number, other, get_re, get_im, number_of, is_equal, is_real, stop,
}

-- the characters that `op` may be in `_order`
pub data OrderOp : Type 0 where
  eq lt gt le ge : OrderOp

-- the switch of `_order`: whether the arguments are still in order
abbrev pub holds : OrderOp → Sign → Bool
holds eq equal = true
holds eq _ = false
holds lt negative = true
holds lt _ = false
holds gt positive = true
holds gt _ = false
holds le positive = false
holds le _ = true
holds ge negative = false
holds ge _ = true

module _ (g : Gmp) where
  -- the test of an argument in `_order`
  unfoldable pub orderable : OrderOp → Argument g → Outcome (Number g)
  unfolding number_of is_real
  orderable eq a = number_of g a
  orderable op (a_number n) =
      if is_real g (a_number n) then ok n else stop (codes "expected real number for ordering")
  orderable op other = stop (codes "expected real number for ordering")

  -- the comparison of two neighbours: `=` looks at the imaginary parts too
  unfoldable pub compare_with : OrderOp → Number g → Number g → Sign
  unfolding re_order2
  compare_with eq m n =
      let res = re_order2 g (get_re g m) (get_re g n) in
      if is_equal g res then re_order2 g (get_im g m) (get_im g n) else res
  compare_with op m n = re_order2 g (get_re g m) (get_re g n)

  -- the loop of `_order` behind the argument `m`
  unfoldable pub order_from : OrderOp → Number g → List (Argument g) → Outcome Bool
  order_from op m [] = ok true
  order_from op m (a ∷ as') = do
    n ← orderable op a
    let rest = order_from op n as'
    if holds op (compare_with op m n) then rest else ok false

  -- `_order`
  unfoldable pub order : OrderOp → List (Argument g) → Outcome Bool
  unfolding order_from orderable
  order op [] = ok true
  order op (a ∷ as') = do m ← orderable op a; order_from op m as'

  -- the built-ins, `args` without the free list
  unfoldable pub builtin_eq : List (Argument g) → Outcome Bool
  unfolding order
  builtin_eq args = order eq args

  unfoldable pub builtin_lt : List (Argument g) → Outcome Bool
  unfolding order
  builtin_lt args = order lt args

  unfoldable pub builtin_gt : List (Argument g) → Outcome Bool
  unfolding order
  builtin_gt args = order gt args

  unfoldable pub builtin_le : List (Argument g) → Outcome Bool
  unfolding order
  builtin_le args = order le args

  unfoldable pub builtin_ge : List (Argument g) → Outcome Bool
  unfolding order
  builtin_ge args = order ge args
