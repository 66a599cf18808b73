-- ===== src/Runtime/Vector/Elements.antt =====
-- What is in a vector, and what `vector-ref` and `vector->list` make of it.
use llscheme.Base.{
  ℕ, zero, suc, ◌≡◌, refl, ap, some, List, [], ◌∷◌, ◌++◌, length, ℤ, pos, negsuc, inl, inr,
}
use llscheme.Base.Outcome.{ok}
use llscheme.Runtime.Heap.{Object, Heap, object_at, new_object}
use llscheme.Runtime.Heap.Laws.{load-eq}
use llscheme.Runtime.Utils.{check_args_count, number_p}
use llscheme.Runtime.PairList.{argument, simplenumber_get}
use llscheme.Runtime.PairList.Chains.{Makes, builtin_list-Makes, object_at-last}
use llscheme.Runtime.PairList.Chains.Walks.{nth, nth_at, nth-cases, picked}
use llscheme.Runtime.Vector.{
  vector_p, element_of, new_vector, repeat, builtin_vector, builtin_vector_ref,
  builtin_vector_to_list, builtin_make_vector, make_filled, fill_of,
}

-- A vector of the elements: its length is theirs.
abbrev pub VectorAt : Heap → ℕ → List ℕ → Type 0
VectorAt h v es = object_at h v ≡ some (Object.vector (pos (length es)) es)

argument-nth :
    (es : List ℕ) (i : ℕ) {x : ℕ} (h : Heap) → nth es i ≡ some x → argument es i h ≡ ok (x, h)
unfolding nth argument
argument-nth [] i h e = cc
argument-nth (y ∷ es) zero h e = cc
argument-nth (y ∷ es) (suc i) h e = argument-nth es i h e

element_of-picked :
    (es : List ℕ) (i : ℤ) (h : Heap)
    → element_of (pos (length es)) es i h ≡ picked (nth_at es i) i h
unfolding element_of nth_at picked
element_of-picked es (negsuc i) h = refl
element_of-picked es (pos i) h = elim (nth-cases es i) [
  | inl (out, n) ↦ rw (out, n) refl
  | inr (within, (x, n)) ↦ rw (within, n) (argument-nth es i h n)
]

-- vector-ref on a vector and a number gives the element at the index, or the error if the index is
-- negative or too large, leaves the heap, and never reads outside the vector.
pub builtin_vector_ref-VectorAt :
    (h : Heap) (v k : ℕ) {s : ℕ} (i : ℤ) {es : List ℕ}
    → VectorAt h v es
    → object_at h k ≡ some (Object.number s i)
    → builtin_vector_ref (v ∷ k ∷ []) h ≡ picked (nth_at es i) i h
unfolding builtin_vector_ref argument check_args_count number_p vector_p
builtin_vector_ref-VectorAt h v k i {es} a e = rw (load-eq h v a) (
    rw (load-eq h k e) (
      rw (load-eq h v a)
        (rw (load-eq h k e) (unfold simplenumber_get in element_of-picked es i h))))

-- vector->list of a vector makes a new list of the same elements, in order, and changes no object that was
-- there.
pub builtin_vector_to_list-Makes :
    (h : Heap) (v : ℕ) {es : List ℕ}
    → VectorAt h v es
    → Makes es h (builtin_vector_to_list (v ∷ []) h)
unfolding builtin_vector_to_list argument check_args_count vector_p
builtin_vector_to_list-Makes h v {es} a =
    rw (load-eq h v a) (rw (load-eq h v a) (builtin_list-Makes es h))

-- A new vector of the arguments, and nothing else changed.
pub builtin_vector-VectorAt :
    (args : List ℕ) (h : Heap)
    → (v : ℕ) × ((ext : Heap) × ((builtin_vector args h ≡ ok (v, h ++ ext))
          × VectorAt (h ++ ext) v args))
unfolding builtin_vector new_vector new_object
builtin_vector-VectorAt args h = (suc (length h), (_, (refl, object_at-last h _)))

length-repeat : (n x : ℕ) → length (repeat n x) ≡ n
length-repeat zero x = refl
length-repeat (suc n) x = ap suc (length-repeat n x)

-- make-vector with a number that is not negative and an object makes a vector of that many times the
-- object, and changes no object that was there.
pub builtin_make_vector-VectorAt :
    (h : Heap) (k x n : ℕ) {s : ℕ}
    → object_at h k ≡ some (Object.number s (pos n))
    → (v : ℕ) × ((ext : Heap) × ((builtin_make_vector (k ∷ x ∷ []) h ≡ ok (v, h ++ ext))
          × VectorAt (h ++ ext) v (repeat n x)))
unfolding builtin_make_vector argument check_args_count number_p make_filled fill_of new_vector
    new_object
builtin_make_vector-VectorAt h k x n e = (
  suc (length h),
  (
    _,
    (rw (load-eq h k e) (rw (load-eq h k e) (unfold simplenumber_get in refl)), object_at-last h _),
  ),
)
