-- ===== src/Runtime/Number/Builtins.antt =====
-- `_arith2`, `_arith` and the arithmetic built-ins of src/runtime/number.c.
use llscheme.Base.{ℕ, Bool, true, false, Option, none, List, [], ◌∷◌, codes, length, pos}
use llscheme.Base.Outcome.{Outcome, ok, throws, stopped}
use llscheme.Runtime.Number.{Gmp, Real, ◌>>=◌, ◌>>◌}
use llscheme.Runtime.Number.Arith.{ArithOp, plus, minus, times, divide, re_arith2, re_neg}
use llscheme.Runtime.Number.Objects.{
  Number, Argument, get_re, get_im, update_re, update_im, new_number, duplicate_number, number_of,
  count_args,
}

abbrev pub is_complex_pair : {A : Type 0} → Option A → Option A → Bool
is_complex_pair none none = false
is_complex_pair _ _ = true

abbrev pub op_char : ArithOp → ℕ
op_char plus = b'+'
op_char minus = b'-'
op_char times = b'*'
op_char divide = b'/'

module _ (g : Gmp) where
  -- the real and the imaginary part of a result
  abbrev pub Parts : Type 0
  Parts = Real g × Real g

  -- the case '*' of `_arith2`: (a + bi)(c + di)
  unfoldable pub multiply_parts : Bool → Parts → Parts → Outcome Parts
  unfolding re_arith2
  multiply_parts false (dr, di) (sr, si) = do dr' ← re_arith2 g times dr sr; ok (dr', di)
  multiply_parts true (dr, di) (sr, si) = do
    ac ← re_arith2 g times dr sr
    bc ← re_arith2 g times di sr
    ad ← re_arith2 g times dr si
    bd ← re_arith2 g times di si
    re ← re_arith2 g minus ac bd
    im ← re_arith2 g plus bc ad
    ok (re, im)

  -- the inverse of `src` in the case '/'
  unfoldable pub invert_parts : Parts → Outcome Parts
  unfolding re_arith2 re_neg
  invert_parts (sr, si) = do
    cc' ← re_arith2 g times sr sr
    dd ← re_arith2 g times si si
    r ← re_arith2 g plus cc' dd
    si' ← re_neg g si
    re ← re_arith2 g divide sr r
    im ← re_arith2 g divide si' r
    ok (re, im)

  -- plus and minus, and the imaginary parts if one of the numbers is complex
  unfoldable pub each_part : ArithOp → Bool → Parts → Parts → Outcome Parts
  unfolding re_arith2
  each_part op false (dr, di) (sr, si) = do dr' ← re_arith2 g op dr sr; ok (dr', di)
  each_part op true (dr, di) (sr, si) = do
    dr' ← re_arith2 g op dr sr
    di' ← re_arith2 g op di si
    ok (dr', di')

  -- the switch of `_arith2`
  unfoldable pub arith_parts : ArithOp → Bool → Parts → Parts → Outcome Parts
  unfolding each_part multiply_parts invert_parts re_arith2
  arith_parts plus c d s = each_part plus c d s
  arith_parts minus c d s = each_part minus c d s
  arith_parts times c d s = multiply_parts c d s
  arith_parts divide false (dr, di) (sr, si) = do dr' ← re_arith2 g divide dr sr; ok (dr', di)
  arith_parts divide true d s = do s' ← invert_parts s; multiply_parts true d s'

  -- `_arith2`, which leaves its result in `dst`
  unfoldable pub arith2 : ArithOp → Number g → Number g → Outcome (Number g)
  unfolding arith_parts
  arith2 op dst src = do
    r ←
        arith_parts op (is_complex_pair dst.im src.im) (get_re g dst, get_im g dst)
          (get_re g src, get_im g src)
    ok (update_im g (update_re g dst r.0) r.1)

  -- the loop of `_arith`
  unfoldable pub arith_from : ArithOp → Number g → List (Argument g) → Outcome (Number g)
  unfolding number_of arith2
  arith_from op ret [] = ok ret
  arith_from op ret (a ∷ as') = do n ← number_of g a; ret' ← arith2 op ret n; arith_from op ret' as'

  -- the value to begin with, for '-' and '/' with more than one operand: a copy of the first
  unfoldable pub from_first : ArithOp → ℕ → List (Argument g) → Outcome (Number g)
  unfolding number_of arith_from
  from_first op unit [] = throws (
      stopped (codes "invalid number of operand (op=`%c', argc=%d)")
        (pos (op_char op) ∷ pos 0 ∷ []))
  from_first op unit (a ∷ []) = arith_from op (new_number g unit) (a ∷ [])
  from_first op unit (a ∷ b ∷ bs) = do
    n ← number_of g a
    arith_from op (duplicate_number g n) (b ∷ bs)

  -- `_arith`
  unfoldable pub arith_all : ArithOp → List (Argument g) → Outcome (Number g)
  unfolding arith_from from_first
  arith_all plus args = arith_from plus (new_number g 0) args
  arith_all times args = arith_from times (new_number g 1) args
  arith_all minus args = from_first minus 0 args
  arith_all divide args = from_first divide 1 args

  unfoldable pub builtin_plus : List (Argument g) → Outcome (Number g)
  unfolding arith_all
  builtin_plus args = arith_all plus args

  unfoldable pub builtin_minus : List (Argument g) → Outcome (Number g)
  unfolding arith_all count_args
  builtin_minus args = do count_args 1 0 (length args); arith_all minus args

  unfoldable pub builtin_multiply : List (Argument g) → Outcome (Number g)
  unfolding arith_all
  builtin_multiply args = arith_all times args

  unfoldable pub builtin_divide : List (Argument g) → Outcome (Number g)
  unfolding arith_all count_args
  builtin_divide args = do count_args 1 0 (length args); arith_all divide args
