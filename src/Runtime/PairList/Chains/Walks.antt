-- ===== src/Runtime/PairList/Chains/Walks.antt =====
-- The loops that walk along a list, on chains that end and on chains that do not.
use llscheme.Base.{
  ℕ, zero, suc, ◌+◌, ◌≤◌, ◌<◌, ◌≡◌, ◌⊎◌, inl, inr, refl, ◌∙◌, true, false, Option, none, some, List,
  [], ◌∷◌, arith, length, leb, ◌==◌, codes, ℤ, pos, negsuc, int_max,
}
use llscheme.Base.Outcome.{Outcome, ok, throws, diverge, stopped}
use llscheme.Runtime.Heap.{Object, Heap, object_at}
use llscheme.Runtime.Heap.Laws.{load-eq}
use llscheme.Runtime.Utils.{number_p, check_args_count}
use llscheme.Runtime.PairList.{
  argument, length_from, list_length, is_list, element_at, list_ref_at, simplenumber_get,
  builtin_list_ref,
}
use llscheme.Runtime.PairList.Chains.{ListAt, list_end, list_pair}

counted :
    {m n : ℕ} (h : Heap) → m ≡ n → ◌≡◌ {A = Outcome (ℤ × Heap)} (ok (pos m, h)) (ok (pos n, h))
counted h e = cc

below_max : (len n : ℕ) → len + suc n ≤ int_max → (len == int_max) ≡ false
below_max len n l = ground arith

length_from-ListAt :
    (h : Heap) (f len : ℕ) {a : ℕ} {xs : List ℕ}
    → ListAt h a xs
    → length xs < f
    → len + length xs ≤ int_max
    → length_from f len a h ≡ ok (pos (len + length xs), h)
unfolding length_from
length_from-ListAt h zero len l b b' = absurd (omega arith)
length_from-ListAt h (suc f) len (list_end {a} e) b b' =
    rw (load-eq h a e) (counted h (omega arith))
length_from-ListAt h (suc f) len (list_pair {a} {x} {d} {xs} e l) b b' = rw (load-eq h a e) (
    rw (below_max len (length xs) b') (
      length_from-ListAt h f (suc len) {a = d} {xs = xs} l (omega arith) (omega arith)
      ∙ counted h (omega arith)))

is_list-ListAt :
    (h : Heap) (f : ℕ) {a : ℕ} {xs : List ℕ}
    → ListAt h a xs
    → length xs < f
    → is_list f a h ≡ ok (true, h)
unfolding is_list
is_list-ListAt h zero l b = absurd (omega arith)
is_list-ListAt h (suc f) (list_end {a} e) b = rw (load-eq h a e) refl
is_list-ListAt h (suc f) (list_pair {a} {x} {d} {xs} e l) b =
    rw (load-eq h a e) (is_list-ListAt h f {a = d} {xs = xs} l (omega arith))

-- Addresses from which there is a pair, and from its cdr another one, for ever.
abbrev pub Endless : Heap → (ℕ → Type 0) → Type 0
Endless h P = (a : ℕ) → P a → (x : ℕ) × ((d : ℕ) × ((object_at h a ≡ some (Object.pair x d)) × P d))

pub is_list-diverge :
    (h : Heap) (P : ℕ → Type 0) → Endless h P → (f a : ℕ) → P a → is_list f a h ≡ diverge
unfolding is_list
is_list-diverge h P more zero a p = refl
is_list-diverge h P more (suc f) a p =
    let (x, (d, (e, q))) = more a p in rw (load-eq h a e) (is_list-diverge h P more f d q)

-- _length of a list of at most INT_MAX elements is their number and leaves the heap, given more fuel than
-- elements.
pub list_length-ListAt :
    (h : Heap) (f : ℕ) {a : ℕ} {xs : List ℕ}
    → ListAt h a xs
    → length xs < f
    → length xs ≤ int_max
    → list_length f a h ≡ ok (pos (length xs), h)
unfolding list_length
list_length-ListAt h f {xs} l b b' =
    length_from-ListAt h f 0 l b (omega arith) ∙ counted h (omega arith)

unfoldable pub nth : List ℕ → ℕ → Option ℕ
nth [] i = none
nth (x ∷ xs) zero = some x
nth (x ∷ xs) (suc i) = nth xs i

-- What `list-ref` answers for the elements and an index.
unfoldable pub picked : Option ℕ → ℤ → Heap → Outcome (ℕ × Heap)
picked none i h = throws (stopped (codes "(Argument 2) out of range: %d") (i ∷ []))
picked (some x) i h = ok (x, h)

unfoldable pub nth_at : List ℕ → ℤ → Option ℕ
unfolding nth
nth_at xs (pos i) = nth xs i
nth_at xs (negsuc i) = none

element_at-ListAt :
    (h : Heap) (i : ℕ) {a x : ℕ} {xs : List ℕ}
    → ListAt h a xs
    → nth xs i ≡ some x
    → element_at i a h ≡ ok (x, h)
unfolding element_at nth
element_at-ListAt h i (list_end e) n = cc
element_at-ListAt h zero (list_pair {a} e l) n = rw (load-eq h a e) (cc)
element_at-ListAt h (suc i) (list_pair {a} {x} {d} {xs} e l) n =
    rw (load-eq h a e) (element_at-ListAt h i {a = d} {xs = xs} l n)

pub nth-cases :
    (xs : List ℕ) (i : ℕ)
    → ((leb (length xs) i ≡ true) × (nth xs i ≡ none))
      ⊎ ((leb (length xs) i ≡ false) × ((x : ℕ) × (nth xs i ≡ some x)))
unfolding nth
nth-cases [] i = inl (ground arith, refl)
nth-cases (x ∷ xs) zero = inr (ground arith, (x, refl))
nth-cases (x ∷ xs) (suc i) = elim (nth-cases xs i) [
  | inl (out, n) ↦ inl (ground arith, n)
  | inr (within, r) ↦ inr (ground arith, r)
]

list_ref_at-ListAt :
    (h : Heap) (i : ℤ) {a : ℕ} {xs : List ℕ}
    → ListAt h a xs
    → list_ref_at a (pos (length xs)) i h ≡ picked (nth_at xs i) i h
unfolding list_ref_at nth_at picked
list_ref_at-ListAt h (negsuc i) l = refl
list_ref_at-ListAt h (pos i) {a} {xs} l = elim (nth-cases xs i) [
  | inl (out, n) ↦ rw (out, n) refl
  | inr (within, (x, n)) ↦ rw (within, n) (element_at-ListAt h i l n)
]

-- list-ref on a list of at most INT_MAX elements and a number gives the element at the index, or the error
-- if the index is negative or too large, and leaves the heap, given more fuel than elements.
pub builtin_list_ref-ListAt :
    (h : Heap) (f k : ℕ) {a s : ℕ} (i : ℤ) {xs : List ℕ}
    → ListAt h a xs
    → object_at h k ≡ some (Object.number s i)
    → length xs < f
    → length xs ≤ int_max
    → builtin_list_ref f (a ∷ k ∷ []) h ≡ picked (nth_at xs i) i h
unfolding builtin_list_ref argument check_args_count number_p
builtin_list_ref-ListAt h f k i l e b b' = rw (load-eq h k e) (
    rw (list_length-ListAt h f l b b')
      (rw (load-eq h k e) (unfold simplenumber_get in list_ref_at-ListAt h i l)))
