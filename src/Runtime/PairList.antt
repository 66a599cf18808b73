-- ===== src/Runtime/PairList.antt =====
-- src/runtime/pairlist.c: pairs and lists. The arguments of a built-in are a list of addresses.
pub mod Chains
pub mod Pairs
use llscheme.Base.{
  ℕ, zero, suc, ◌+◌, Bool, true, false, ◌||◌, [], ◌∷◌, ltb, leb, ◌==◌, if◌then◌else◌, codes, ℤ, pos,
  negsuc, int_max, Text, List, length,
}
use llscheme.Base.Outcome.{
  ◌>>=◌, ◌>>◌, pure, throw, undefined, looping, stopped, out_of_bounds, null_pointer,
  signed_overflow,
}
use llscheme.Runtime.Heap.{Object, Run, load, store, new_object, unspec_obj}
use llscheme.Runtime.Utils.{fails, is_pair, is_nil, check_args_count, pair_p, number_p, truth_obj}

-- `args[i]`
unfoldable pub argument : List ℕ → ℕ → Run ℕ
argument [] i = undefined out_of_bounds
argument (a ∷ as') zero = pure a
argument (a ∷ as') (suc i) = argument as' i

-- `lso_pair_car`, `lso_pair_cdr`: `u1` and `u2` as pointers, which other objects than pairs have no
-- object behind.
abbrev pub car_of : Object → Run ℕ
car_of (Object.pair a d) = pure a
car_of _ = undefined null_pointer

abbrev pub cdr_of : Object → Run ℕ
cdr_of (Object.pair a d) = pure d
cdr_of _ = undefined null_pointer

-- `lso_set_car`, `lso_set_cdr`
abbrev pub with_car : ℕ → Object → Run Object
with_car x (Object.pair a d) = pure (Object.pair x d)
with_car x _ = undefined null_pointer

abbrev pub with_cdr : ℕ → Object → Run Object
with_cdr x (Object.pair a d) = pure (Object.pair a x)
with_cdr x _ = undefined null_pointer

unfoldable pub set_car : ℕ → ℕ → Run (Unit {0})
set_car p x = do o ← load p; o' ← with_car x o; store p o'

unfoldable pub set_cdr : ℕ → ℕ → Run (Unit {0})
set_cdr p x = do o ← load p; o' ← with_cdr x o; store p o'

-- an object of type `ls_t_pair` with both members set
unfoldable pub new_pair : ℕ → ℕ → Run ℕ
unfolding set_car set_cdr
new_pair x y = do p ← new_object (Object.pair 0 0); set_car p x; set_cdr p y; pure p

unfoldable pub builtin_cons : List ℕ → Run ℕ
unfolding argument new_pair
builtin_cons args = do
  check_args_count 2 2 (length args)
  x ← argument args 0
  y ← argument args 1
  new_pair x y

unfoldable pub builtin_car : List ℕ → Run ℕ
unfolding argument
builtin_car args = do
  check_args_count 1 1 (length args)
  p ← argument args 0
  pair_p p
  o ← load p
  car_of o

unfoldable pub builtin_cdr : List ℕ → Run ℕ
unfolding argument
builtin_cdr args = do
  check_args_count 1 1 (length args)
  p ← argument args 0
  pair_p p
  o ← load p
  cdr_of o

unfoldable pub builtin_set_car : List ℕ → Run ℕ
unfolding argument set_car
builtin_set_car args = do
  check_args_count 2 2 (length args)
  p ← argument args 0
  pair_p p
  x ← argument args 1
  set_car p x
  pure unspec_obj

unfoldable pub builtin_set_cdr : List ℕ → Run ℕ
unfolding argument set_cdr
builtin_set_cdr args = do
  check_args_count 2 2 (length args)
  p ← argument args 0
  pair_p p
  x ← argument args 1
  set_cdr p x
  pure unspec_obj

unfoldable pub builtin_nullp : List ℕ → Run ℕ
unfolding argument
builtin_nullp args = do
  check_args_count 1 1 (length args)
  a ← argument args 0
  o ← load a
  pure (truth_obj (is_nil o))

unfoldable pub builtin_pairp : List ℕ → Run ℕ
unfolding argument
builtin_pairp args = do
  check_args_count 1 1 (length args)
  a ← argument args 0
  o ← load a
  pure (truth_obj (is_pair o))

-- the loop of `list`, from the last argument to the first
unfoldable pub list_from : List ℕ → ℕ → Run ℕ
unfolding new_pair
list_from [] last = pure last
list_from (a ∷ as') last = do rest ← list_from as' last; new_pair a rest

unfoldable pub builtin_list : List ℕ → Run ℕ
unfolding list_from
builtin_list args = do last ← new_object Object.nil; list_from args last

-- what the loops of `_length` and `_listp` do with an object
abbrev pub by_shape : {A : Type 0} → Object → A → (ℕ → A) → A → A
by_shape Object.nil at_end at_pair otherwise = at_end
by_shape (Object.pair a d) at_end at_pair otherwise = at_pair d
by_shape _ at_end at_pair otherwise = otherwise

-- `_length`, with the length so far; past INT_MAX the addition has no defined result.
unfoldable pub length_from : ℕ → ℕ → ℕ → Run ℤ
length_from zero len a = looping
length_from (suc f) len a = load a >>= λ o.
    by_shape o (pure (pos len))
      (λ d. if len == int_max then undefined signed_overflow else length_from f (suc len) d)
      (pure (negsuc 0))

unfoldable pub list_length : ℕ → ℕ → Run ℤ
unfolding length_from
list_length f a = length_from f 0 a

-- `_listp`
unfoldable pub is_list : ℕ → ℕ → Run Bool
is_list zero a = looping
is_list (suc f) a = load a >>= λ o. by_shape o (pure true) (λ d. is_list f d) (pure false)

unfoldable pub builtin_listp : ℕ → List ℕ → Run ℕ
unfolding argument is_list
builtin_listp f args = do
  check_args_count 1 1 (length args)
  a ← argument args 0
  b ← is_list f a
  pure (truth_obj b)

-- the test for -1, and the new number
unfoldable pub length_result : ℤ → Run ℕ
length_result (pos n) = new_object (Object.number 0 (pos n))
length_result (negsuc n) = fails (codes "(Argument 1) LIST expected")

unfoldable pub builtin_length : ℕ → List ℕ → Run ℕ
unfolding argument list_length length_result
builtin_length f args = do
  check_args_count 1 1 (length args)
  a ← argument args 0
  n ← list_length f a
  length_result n

-- the loop of `list-ref`, and the car at its end
unfoldable pub element_at : ℕ → ℕ → Run ℕ
element_at zero a = do o ← load a; car_of o
element_at (suc i) a = do o ← load a; d ← cdr_of o; element_at i d

-- `lso_simplenumber_get` reads `u1` as an `int`, whatever the subtype of the number.
unfoldable pub simplenumber_get : Object → Run ℤ
simplenumber_get (Object.number s v) = pure v
simplenumber_get _ = undefined null_pointer

-- the tests of the length and of the index, and the walk
unfoldable pub list_ref_at : ℕ → ℤ → ℤ → Run ℕ
unfolding element_at
list_ref_at a (negsuc n) idx = fails (codes "(Argument 1) LIST expected")
list_ref_at a (pos len) (negsuc n) =
    throw (stopped (codes "(Argument 2) out of range: %d") (negsuc n ∷ []))
list_ref_at a (pos len) (pos i) =
    if leb len i
    then throw (stopped (codes "(Argument 2) out of range: %d") (pos i ∷ []))
    else element_at i a

unfoldable pub builtin_list_ref : ℕ → List ℕ → Run ℕ
unfolding argument list_length simplenumber_get list_ref_at
builtin_list_ref f args = do
  check_args_count 2 2 (length args)
  k ← argument args 1
  number_p k
  a ← argument args 0
  len ← list_length f a
  o ← load k
  idx ← simplenumber_get o
  list_ref_at a len idx
