-- ===== src/Runtime/Vector.antt =====
-- src/runtime/vector.c: vectors. The elements of a vector are in a block of their own, which the model
-- keeps with the vector.
pub mod Elements
use llscheme.Base.{
  ℕ, zero, suc, Bool, true, false, [], ◌∷◌, leb, if◌then◌else◌, codes, ℤ, pos, negsuc, Text, List,
  length, ◌==◌,
}
use llscheme.Base.Outcome.{
  ◌>>=◌, ◌>>◌, pure, throw, undefined, stopped, out_of_bounds, null_pointer,
}
use llscheme.Runtime.Heap.{Object, Run, load, store, new_object, unspec_obj}
use llscheme.Runtime.Utils.{fails, check_args_count, expect, number_p}
use llscheme.Runtime.PairList.{argument, simplenumber_get, builtin_list}

abbrev pub is_vector : Object → Bool
is_vector (Object.vector n es) = true
is_vector _ = false

unfoldable pub vector_p : ℕ → Run (Unit {0})
vector_p = expect is_vector (codes "expected vector")

-- `lso_vector_length`, `lso_vector_addr0`
abbrev pub vector_length : Object → Run ℤ
vector_length (Object.vector n es) = pure n
vector_length _ = undefined null_pointer

abbrev pub vector_elements : Object → Run (List ℕ)
vector_elements (Object.vector n es) = pure es
vector_elements _ = undefined null_pointer

-- `vectorp` makes a new boolean.
unfoldable pub builtin_vectorp : List ℕ → Run ℕ
unfolding argument
builtin_vectorp args = do
  check_args_count 1 1 (length args)
  v ← argument args 0
  o ← load v
  new_object (Object.boolean (if is_vector o then pos 1 else pos 0))

unfoldable pub builtin_vector_length : List ℕ → Run ℕ
unfolding argument vector_p
builtin_vector_length args = do
  check_args_count 1 1 (length args)
  v ← argument args 0
  vector_p v
  o ← load v
  n ← vector_length o
  new_object (Object.number 0 n)

abbrev pub repeat : ℕ → ℕ → List ℕ
repeat zero x = []
repeat (suc n) x = x ∷ repeat n x

-- `vector_new` and the loop that fills the elements
unfoldable pub new_vector : List ℕ → Run ℕ
new_vector es = new_object (Object.vector (pos (length es)) es)

-- what fills a new vector: the second argument if there is one
unfoldable pub fill_of : List ℕ → Run ℕ
unfolding argument
fill_of args = if length args == 1 then pure unspec_obj else argument args 1

make_filled : List ℕ → ℤ → Run ℕ
unfolding fill_of new_vector
make_filled args (negsuc n) =
    throw (stopped (codes "(Argument 1) out of range: %d") (negsuc n ∷ []))
make_filled args (pos n) = do x ← fill_of args; new_vector (repeat n x)

unfoldable pub builtin_make_vector : List ℕ → Run ℕ
unfolding argument make_filled simplenumber_get
builtin_make_vector args = do
  check_args_count 1 2 (length args)
  k ← argument args 0
  number_p k
  o ← load k
  len ← simplenumber_get o
  make_filled args len

unfoldable pub builtin_vector : List ℕ → Run ℕ
unfolding new_vector
builtin_vector args = new_vector args

-- the tests of the index, and the access
unfoldable pub element_of : ℤ → List ℕ → ℤ → Run ℕ
unfolding argument
element_of len es (negsuc i) =
    throw (stopped (codes "(Argument 2) out of range: %d") (negsuc i ∷ []))
element_of (negsuc n) es (pos i) =
    throw (stopped (codes "(Argument 2) out of range: %d") (pos i ∷ []))
element_of (pos n) es (pos i) =
    if leb n i
    then throw (stopped (codes "(Argument 2) out of range: %d") (pos i ∷ []))
    else argument es i

unfoldable pub builtin_vector_ref : List ℕ → Run ℕ
unfolding argument vector_p element_of simplenumber_get
builtin_vector_ref args = do
  check_args_count 2 2 (length args)
  v ← argument args 0
  vector_p v
  k ← argument args 1
  number_p k
  o ← load v
  len ← vector_length o
  n ← load k
  idx ← simplenumber_get n
  es ← vector_elements o
  element_of len es idx

-- `vector->list` calls `list` on the block of the elements.
unfoldable pub builtin_vector_to_list : List ℕ → Run ℕ
unfolding argument vector_p builtin_list
builtin_vector_to_list args = do
  check_args_count 1 1 (length args)
  v ← argument args 0
  vector_p v
  o ← load v
  es ← vector_elements o
  builtin_list es
