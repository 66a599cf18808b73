-- ===== src/Examples/Heaps.antt =====
-- Built-in procedures on small heaps: src/runtime.
use llscheme.Base.{ℕ, ◌≡◌, refl, [], ◌∷◌, ◌++◌, arith, pos, codes}
use llscheme.Base.Outcome.{ok, fault, diverge, out_of_bounds}
use llscheme.Runtime.Heap.{Object, Heap, globals, object_at, unspec_obj}
use llscheme.Runtime.PairList.{list_length, builtin_set_cdr, builtin_listp, builtin_list_ref}
use llscheme.Runtime.PairList.Chains.{Makes, ListAt, list_end, list_pair}
use llscheme.Runtime.PairList.Chains.Walks.{
  nth_at, picked, list_length-ListAt, builtin_list_ref-ListAt,
}
use llscheme.Runtime.PairList.Pairs.{builtin_set_cdr-cycle}
use llscheme.Runtime.Vector.{builtin_vector_ref, builtin_vector_to_list}
use llscheme.Runtime.Vector.Elements.{builtin_vector_ref-VectorAt, builtin_vector_to_list-Makes}
use llscheme.Runtime.Strings.{builtin_string_append, builtin_substring}
use llscheme.Runtime.Strings.Append.{
  no_strings, a_string, concat, builtin_string_append-StringsAt, builtin_substring-fault,
}

-- the globals, a pair of #t and an empty list, that list, and the number 0
abbrev one_element : Heap
one_element = globals ++ Object.pair 1 5 ∷ Object.nil ∷ Object.number 0 (pos 0) ∷ []

one_element-ListAt : ListAt one_element 4 (1 ∷ [])
unfolding object_at
one_element-ListAt = list_pair refl (list_end refl)

builtin_list_ref-ListAt_example :
    builtin_list_ref 3 (4 ∷ 6 ∷ []) one_element
    ≡ picked (nth_at (1 ∷ []) (pos 0)) (pos 0) one_element
unfolding object_at
builtin_list_ref-ListAt_example =
    builtin_list_ref-ListAt one_element 3 6 (pos 0) one_element-ListAt refl (omega arith)
      (omega arith)

list_length-ListAt_example : list_length 3 4 one_element ≡ ok (pos 1, one_element)
list_length-ListAt_example =
    list_length-ListAt one_element 3 one_element-ListAt (omega arith) (omega arith)

builtin_set_cdr-cycle_example :
    (h' : Heap) × ((builtin_set_cdr (4 ∷ 4 ∷ []) one_element ≡ ok (unspec_obj, h'))
      × ((f : ℕ) → builtin_listp f (4 ∷ []) h' ≡ diverge))
unfolding object_at
builtin_set_cdr-cycle_example = builtin_set_cdr-cycle one_element 4 refl

-- the globals, a vector of two truth values, and the number 1
abbrev two_elements : Heap
two_elements = globals ++ Object.vector (pos 2) (1 ∷ 2 ∷ []) ∷ Object.number 0 (pos 1) ∷ []

builtin_vector_ref-VectorAt_example :
    builtin_vector_ref (4 ∷ 5 ∷ []) two_elements
    ≡ picked (nth_at (1 ∷ 2 ∷ []) (pos 1)) (pos 1) two_elements
unfolding object_at
builtin_vector_ref-VectorAt_example = builtin_vector_ref-VectorAt two_elements 4 5 (pos 1) refl refl

builtin_vector_to_list-Makes_example :
    Makes (1 ∷ 2 ∷ []) two_elements (builtin_vector_to_list (4 ∷ []) two_elements)
unfolding object_at
builtin_vector_to_list-Makes_example = builtin_vector_to_list-Makes two_elements 4 refl

-- the globals, a string and two numbers
abbrev a_text : Heap
a_text =
    globals ++ Object.string (codes "abc") ∷ Object.number 0 (pos 1) ∷ Object.number 0 (pos 2) ∷ []

builtin_string_append-StringsAt_example :
    builtin_string_append (4 ∷ 4 ∷ []) a_text
    ≡ ok (7, a_text ++ Object.string (concat (codes "abc" ∷ codes "abc" ∷ [])) ∷ [])
unfolding object_at concat
builtin_string_append-StringsAt_example =
    builtin_string_append-StringsAt a_text (λ e. cc) (a_string refl (a_string refl no_strings))
      (omega arith)

builtin_substring-fault_example : builtin_substring (4 ∷ 5 ∷ 6 ∷ []) a_text ≡ fault out_of_bounds
unfolding object_at
builtin_substring-fault_example =
    builtin_substring-fault a_text 4 5 6 1 2 refl refl refl (omega arith) (omega arith)
