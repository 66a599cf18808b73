-- ===== src/Runtime/Heap.antt =====
-- `struct ls_object` of src/include/runtime/object.h and its allocation in src/runtime/utils.c.
pub mod Laws
use llscheme.Base.{ℕ, zero, suc, Option, none, some, List, [], ◌∷◌, ◌++◌, Text, ℤ, pos, length}
use llscheme.Base.Outcome.{ok, Routine, and_then, undefined, null_pointer}

-- An object by its type and the members of its unions that the type uses. An address is a number, and
-- NULL is 0. A number has its subtype bits, and `u1` read as an `int`: the value of a small number.
pub data Object : Type 0 where
  unspec nil : Object
  number : ℕ → ℤ → Object
  boolean : ℤ → Object
  vector : ℤ → List ℕ → Object
  symbol : ℕ → Text → Object
  string : Text → Object
  pair : ℕ → ℕ → Object
  func : ℕ → List ℕ → Object

-- The objects in the order of their allocation: the first has the address 1. The collector frees no
-- object that is in use, and is left out.
abbrev pub Heap : Type 0
Heap = List Object

abbrev pub object_in : Heap → ℕ → Option Object
object_in [] i = none
object_in (o ∷ h) zero = some o
object_in (o ∷ h) (suc i) = object_in h i

unfoldable pub object_at : Heap → ℕ → Option Object
object_at h zero = none
object_at h (suc i) = object_in h i

abbrev pub put_in : ℕ → Object → Heap → Heap
put_in i o [] = []
put_in zero o (p ∷ h) = o ∷ h
put_in (suc i) o (p ∷ h) = p ∷ put_in i o h

unfoldable pub put_at : ℕ → Object → Heap → Heap
put_at zero o h = h
put_at (suc i) o h = put_in i o h

abbrev pub Run : Type 0 → Type 0
Run A = Routine Heap A

-- reading an object through a pointer
abbrev loaded : {A : Type 0} → Option A → Run A
loaded none = undefined null_pointer
loaded (some o) = λ h. ok (o, h)

unfoldable pub load : ℕ → Run Object
unfolding object_at
load a h = loaded (object_at h a) h

unfoldable pub store : ℕ → Object → Run (Unit {0})
unfolding put_at
store a o h = ok (tt, put_at a o h)

-- `lsrt_new_object`: the object is given as the zeroed one of its type.
unfoldable pub new_object : Object → Run ℕ
new_object o h = ok (suc (length h), h ++ o ∷ [])

-- `global_true_obj`, `global_false_obj` and `global_unspec_obj`
abbrev pub true_obj : ℕ
true_obj = 1

abbrev pub false_obj : ℕ
false_obj = 2

abbrev pub unspec_obj : ℕ
unspec_obj = 3

-- the heap of a program that starts
abbrev pub globals : Heap
globals = Object.boolean (pos 1) ∷ Object.boolean (pos 0) ∷ Object.unspec ∷ []
