-- ===== src/Runtime/PairList/Chains.antt =====
-- Lists as chains of pairs that end in the empty list: how `list` makes them and `_length`, `_listp`
-- and `list-ref` walk along them.
pub mod Walks
use llscheme.Base.{
  ℕ, zero, suc, ◌+◌, ◌≤◌, ◌<◌, ◌≡◌, refl, ap, subst, Option, none, some, List, [], ◌∷◌, ◌++◌,
  append_assoc, append-nil, arith, length,
}
use llscheme.Base.Outcome.{Outcome, ok}
use llscheme.Runtime.Heap.{Object, Heap, object_at, put_at, load, store, new_object}
use llscheme.Runtime.Heap.Laws.{object_at-append, object_in-last, put_in-last, load-eq}
use llscheme.Runtime.PairList.{set_car, set_cdr, new_pair, list_from, builtin_list}

-- The elements of the list at an address.
pub data ListAt (h : Heap) : ℕ → List ℕ → Type 0 where
  list_end : {a : ℕ} → object_at h a ≡ some Object.nil → ListAt h a []
  list_pair :
      {a x d : ℕ} {xs : List ℕ}
      → object_at h a ≡ some (Object.pair x d)
      → ListAt h d xs
      → ListAt h a (x ∷ xs)

ListAt-append :
    {h : Heap} (ext : Heap) {a : ℕ} {xs : List ℕ} → ListAt h a xs → ListAt (h ++ ext) a xs
ListAt-append {h} ext (list_end {a} e) = list_end (object_at-append h ext a e)
ListAt-append {h} ext (list_pair {a} {x} {d} {xs} e r) =
    list_pair (object_at-append h ext a e) (ListAt-append ext {a = d} {xs = xs} r)

pub object_at-last : (h : Heap) (o : Object) → object_at (h ++ o ∷ []) (suc (length h)) ≡ some o
unfolding object_at
object_at-last h o = object_in-last h o

-- A new pair is the last object, with both members set.
pub new_pair-eq :
    (x y : ℕ) (h : Heap) → new_pair x y h ≡ ok (suc (length h), h ++ Object.pair x y ∷ [])
unfolding new_pair set_car set_cdr new_object load store object_at put_at
new_pair-eq x y h = rw (
  object_in-last h (Object.pair 0 0),
  put_in-last h (Object.pair 0 0) (Object.pair x 0),
  object_in-last h (Object.pair x 0),
  put_in-last h (Object.pair x 0) (Object.pair x y),
)

-- A routine that only allocates, and returns a list of the elements.
abbrev pub Makes : List ℕ → Heap → Outcome (ℕ × Heap) → Type 0
Makes xs h r = (p : ℕ) × ((ext : Heap) × ((r ≡ ok (p, h ++ ext)) × ListAt (h ++ ext) p xs))

list_from-Makes :
    (args : List ℕ) (last : ℕ) (h : Heap) (xs : List ℕ)
    → ListAt h last xs
    → Makes (args ++ xs) h (list_from args last h)
unfolding list_from
list_from-Makes [] last h xs l = (last, ([], (rw (append-nil h) refl, rw (append-nil h) l)))
list_from-Makes (a ∷ as') last h xs l =
    let (p, (ext, (e, r))) = list_from-Makes as' last h xs l in
    let grown = append_assoc h ext (Object.pair a p ∷ []) in
    (
      suc (length (h ++ ext)),
      (
        ext ++ Object.pair a p ∷ [],
        (
          rw e (rw (new_pair-eq a p (h ++ ext), grown) refl),
          rw (← grown) (
              list_pair (object_at-last (h ++ ext) (Object.pair a p))
                (ListAt-append (Object.pair a p ∷ []) r)),
        ),
      ),
    )

-- list allocates a list of its arguments, in order, and changes no object that was there.
pub builtin_list-Makes : (args : List ℕ) (h : Heap) → Makes args h (builtin_list args h)
unfolding builtin_list new_object
builtin_list-Makes args h =
    let (p, (ext, (e, r))) =
      list_from-Makes args (suc (length h)) (h ++ Object.nil ∷ []) []
        (list_end (object_at-last h Object.nil)) in
    let grown = append_assoc h (Object.nil ∷ []) ext in
    let elements = subst (ListAt ((h ++ Object.nil ∷ []) ++ ext) p) (append-nil args) r in
    (
      p,
      (
        Object.nil ∷ ext,
        (rw (e, grown) refl, subst (λ (k : Heap). ListAt k p args) grown elements),
      ),
    )
