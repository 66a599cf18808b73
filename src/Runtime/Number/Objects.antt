-- ===== src/Runtime/Number/Objects.antt =====
-- Number objects, and the built-in procedures of src/runtime/number.c on them.
use llscheme.Base.{
  ℕ, Bool, true, false, not, ◌&&◌, Option, none, some, List, [], ◌∷◌, Text, codes, length, ◌==◌,
  if◌then◌else◌,
}
use llscheme.Base.Outcome.{Outcome, ok, throws, fault, stopped, null_pointer, out_of_bounds}
use llscheme.Runtime.Utils.{check_args_count}
use llscheme.Runtime.Number.{Sign, equal, Gmp, Real, small, rational, inexact, ◌>>=◌, ◌>>◌}

-- `lsrt_check_args_count`, which does not look at the heap
unfoldable pub count_args : ℕ → ℕ → ℕ → Outcome (Unit {0})
count_args min max argc = check_args_count min max argc [] >>= λ r. ok tt

abbrev pub stop : {A : Type 0} → Text → Outcome A
stop txt = throws (stopped txt [])

module _ (g : Gmp) where
  -- `u1` and its type; `u2` and its type, if the object is marked as complex
  pub record Number : Type 0 where
    pub re : Real g
    pub im : Option (Real g)

  -- An argument: a number, or an object of another type.
  pub data Argument : Type 0 where
    a_number : Number → Argument
    other : Argument

  -- `_re_get_lso_re` and `_re_get_lso_im`
  abbrev pub get_re : Number → Real g
  get_re n = n.re

  abbrev pub part : Option (Real g) → Real g
  part none = small 0
  part (some x) = x

  abbrev pub get_im : Number → Real g
  get_im n = part n.im

  -- whether a number is the `int` 0
  abbrev pub is_small_zero : Real g → Bool
  is_small_zero (small v) = v == 0
  is_small_zero _ = false

  abbrev pub marked : Real g → Option (Real g)
  marked x = if is_small_zero x then none else some x

  -- `_re_update_lso_re`, `_re_update_lso_im` and `_re_new_lso_re_im`
  abbrev pub update_re : Number → Real g → Number
  update_re n x = record n { re = x }

  abbrev pub update_im : Number → Real g → Number
  update_im n x = record n { im = marked x }

  abbrev pub new_re_im : Real g → Real g → Number
  new_re_im x y = record { re = x; im = marked y }

  -- `lsrt_new_number` and `lsrt_duplicate_number`
  abbrev pub new_number : ℕ → Number
  new_number n = record { re = small n; im = none }

  abbrev pub duplicate_number : Number → Number
  duplicate_number n = new_re_im (get_re n) (get_im n)

  -- `lsrt_number_p`, with the number
  unfoldable pub number_of : Argument → Outcome Number
  number_of (a_number n) = ok n
  number_of other = stop (codes "expected number")

  abbrev pub is_equal : Sign → Bool
  is_equal equal = true
  is_equal _ = false

  -- `mpf_cmp_ui(..., 0) == 0` of an imaginary part that is a float
  abbrev pub no_imaginary : Option (Real g) → Bool
  no_imaginary none = true
  no_imaginary (some (inexact f)) = is_equal (g.f_cmp_ui f 0)
  no_imaginary (some _) = false

  -- `lso_is_real`, `lso_is_integer` and `lso_is_exact`. The second reads `u2`, where a real number has
  -- no pointer.
  unfoldable pub is_real : Argument → Bool
  is_real (a_number n) = no_imaginary n.im
  is_real other = false

  abbrev pub float_integer : Option (Real g) → Outcome Bool
  float_integer (some (inexact f)) = ok (g.f_integer_p f)
  float_integer _ = fault null_pointer

  abbrev pub integer_by_type : Real g → Option (Real g) → Outcome Bool
  integer_by_type (rational q) im = ok false
  integer_by_type (inexact f) im = float_integer im
  integer_by_type _ im = ok true

  unfoldable pub is_integer : Argument → Outcome Bool
  unfolding is_real
  is_integer other = ok false
  is_integer (a_number n) = elim (is_real (a_number n)) [
    | true ↦ integer_by_type n.re n.im
    | false ↦ ok false
  ]

  abbrev pub is_inexact : Real g → Bool
  is_inexact (inexact f) = true
  is_inexact _ = false

  unfoldable pub is_exact : Number → Bool
  is_exact n = not (is_inexact n.re) && not (is_inexact (get_im n))

  abbrev pub a_complex : Argument → Bool
  a_complex (a_number n) = elim n.im [ none ↦ false | some x ↦ true ]
  a_complex other = false

  abbrev pub is_a_number : Argument → Bool
  is_a_number (a_number n) = true
  is_a_number other = false

  -- `args[0]`
  unfoldable pub first_arg : List Argument → Outcome Argument
  first_arg [] = fault out_of_bounds
  first_arg (a ∷ as') = ok a

  -- the built-in predicates; the result is the truth value of the object that they return
  unfoldable pub builtin_numberp : List Argument → Outcome Bool
  unfolding count_args first_arg
  builtin_numberp args = do count_args 1 1 (length args); a ← first_arg args; ok (is_a_number a)

  unfoldable pub builtin_complexp : List Argument → Outcome Bool
  unfolding count_args first_arg
  builtin_complexp args = do count_args 1 1 (length args); a ← first_arg args; ok (a_complex a)

  -- `real?` and `rational?`
  unfoldable pub builtin_realp : List Argument → Outcome Bool
  unfolding count_args first_arg is_real
  builtin_realp args = do count_args 1 1 (length args); a ← first_arg args; ok (is_real a)

  unfoldable pub builtin_rationalp : List Argument → Outcome Bool
  unfolding count_args first_arg is_real
  builtin_rationalp args = do count_args 1 1 (length args); a ← first_arg args; ok (is_real a)

  unfoldable pub builtin_integerp : List Argument → Outcome Bool
  unfolding count_args first_arg is_integer
  builtin_integerp args = do count_args 1 1 (length args); a ← first_arg args; is_integer a

  unfoldable pub builtin_exactp : List Argument → Outcome Bool
  unfolding count_args first_arg number_of is_exact
  builtin_exactp args = do
    count_args 1 1 (length args)
    a ← first_arg args
    n ← number_of a
    ok (is_exact n)

  unfoldable pub builtin_inexactp : List Argument → Outcome Bool
  unfolding count_args first_arg number_of is_exact
  builtin_inexactp args = do
    count_args 1 1 (length args)
    a ← first_arg args
    n ← number_of a
    ok (not (is_exact n))
