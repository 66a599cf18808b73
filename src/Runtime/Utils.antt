-- ===== src/Runtime/Utils.antt =====
-- src/runtime/utils.c and the checks of src/runtime/include/utils.h.
use llscheme.Base.{
  ℕ, zero, ◌++◌, Bool, true, false, ◌&&◌, ◌||◌, not, [], ◌∷◌, ltb, ◌==◌, if◌then◌else◌, codes, ℤ,
  pos, negsuc, Text,
}
use llscheme.Base.Outcome.{◌>>=◌, pure, throw, stopped}
use llscheme.Runtime.Heap.{Object, Run, load, true_obj, false_obj}

-- `lsrt_error` with a format that takes no arguments
abbrev pub fails : {A : Type 0} → Text → Run A
fails txt = throw (stopped txt [])

-- The predicates of object.h, on the object.
abbrev pub is_pair : Object → Bool
is_pair (Object.pair a b) = true
is_pair _ = false

abbrev pub is_nil : Object → Bool
is_nil Object.nil = true
is_nil _ = false

abbrev pub is_number : Object → Bool
is_number (Object.number s v) = true
is_number _ = false

abbrev pub is_func : Object → Bool
is_func (Object.func c free) = not (c == 0)
is_func _ = false

-- `lsrt_check_args_count`: 0 sets no bound.
unfoldable pub check_args_count : ℕ → ℕ → ℕ → Run (Unit {0})
check_args_count min max argc =
    if (not (min == 0) && ltb argc min) || (not (max == 0) && ltb max argc)
    then throw (
        stopped (codes "fucntion count mismatch: min=%d, max=%d, argc=%d")
          (pos min ∷ pos max ∷ pos argc ∷ []))
    else pure tt

-- `fail_on(!test(obj), msg)`
abbrev pub expect : (Object → Bool) → Text → ℕ → Run (Unit {0})
expect test msg a = do o ← load a; if test o then pure tt else fails msg

unfoldable pub pair_p : ℕ → Run (Unit {0})
pair_p = expect is_pair (codes "expected pair")

unfoldable pub number_p : ℕ → Run (Unit {0})
number_p = expect is_number (codes "expected number")

-- `lsrt_func_p`
unfoldable pub func_p : ℕ → Run (Unit {0})
func_p = expect is_func (codes "expected function")

-- `lsrt_check_symbol_unbound`
symbol_bound : Object → Run (Unit {0})
symbol_bound (Object.symbol deref name) =
    if deref == 0 then fails (codes "unbounded symbol: " ++ name) else pure tt
symbol_bound _ = fails (codes "internal error")

unfoldable pub check_symbol_unbound : ℕ → Run (Unit {0})
unfolding symbol_bound
check_symbol_unbound a = do o ← load a; symbol_bound o

-- `lsrt_main_retval`: the exit status that a program's last value stands for.
unfoldable pub retval : Object → ℤ
retval (Object.number zero v) = v
retval (Object.boolean (pos zero)) = negsuc 0
retval (Object.boolean _) = pos 0
retval _ = pos 0

unfoldable pub main_retval : ℕ → Run ℤ
unfolding retval
main_retval a = do o ← load a; pure (retval o)

-- `lsrt_test_expr`: everything but #f is true.
unfoldable pub is_truthy : Object → Bool
is_truthy (Object.boolean (pos zero)) = false
is_truthy _ = true

unfoldable pub test_expr : ℕ → Run Bool
unfolding is_truthy
test_expr a = do o ← load a; pure (is_truthy o)

-- the unique object of a truth value
abbrev pub truth_obj : Bool → ℕ
truth_obj b = if b then true_obj else false_obj
