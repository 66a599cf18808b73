-- ===== src/Runtime/PairList/Pairs.antt =====
-- `cons` and the operations on one pair: what they read, what they change, and what they leave.
use llscheme.Base.{ℕ, suc, ◌≡◌, ◌≢◌, refl, subst, some, [], ◌∷◌, ◌++◌, length}
use llscheme.Base.Outcome.{ok, diverge}
use llscheme.Runtime.Heap.{Object, Heap, object_at, put_at, store, unspec_obj}
use llscheme.Runtime.Heap.Laws.{object_at-put_at, object_at-put_at_other, load-eq}
use llscheme.Runtime.Utils.{check_args_count, pair_p}
use llscheme.Runtime.PairList.{
  argument, set_car, set_cdr, builtin_cons, builtin_car, builtin_cdr, builtin_set_car,
  builtin_set_cdr, builtin_listp, is_list,
}
use llscheme.Runtime.PairList.Chains.{object_at-last, new_pair-eq}
use llscheme.Runtime.PairList.Chains.Walks.{is_list-diverge}

-- Where there is a pair, `car` and `cdr` return its members.
car_at :
    (h : Heap) (p : ℕ) {x y : ℕ}
    → object_at h p ≡ some (Object.pair x y)
    → builtin_car (p ∷ []) h ≡ ok (x, h)
unfolding builtin_car argument check_args_count pair_p
car_at h p e = rw (load-eq h p e) (rw (load-eq h p e) refl)

cdr_at :
    (h : Heap) (p : ℕ) {x y : ℕ}
    → object_at h p ≡ some (Object.pair x y)
    → builtin_cdr (p ∷ []) h ≡ ok (y, h)
unfolding builtin_cdr argument check_args_count pair_p
cdr_at h p e = rw (load-eq h p e) (rw (load-eq h p e) refl)

-- The car and the cdr of what cons returns are its arguments.
pub builtin_cons-members :
    (x y : ℕ) (h : Heap)
    → (p : ℕ) × ((h' : Heap) × ((builtin_cons (x ∷ y ∷ []) h ≡ ok (p, h'))
          × ((builtin_car (p ∷ []) h' ≡ ok (x, h')) × (builtin_cdr (p ∷ []) h' ≡ ok (y, h')))))
unfolding builtin_cons argument check_args_count
builtin_cons-members x y h =
    let there = object_at-last h (Object.pair x y) in
    (
      suc (length h),
      (h ++ Object.pair x y ∷ [], (new_pair-eq x y h, (car_at _ _ there, cdr_at _ _ there))),
    )

builtin_set_car-eq :
    (h : Heap) (p z : ℕ) {x y : ℕ}
    → object_at h p ≡ some (Object.pair x y)
    → builtin_set_car (p ∷ z ∷ []) h ≡ ok (unspec_obj, put_at p (Object.pair z y) h)
unfolding builtin_set_car argument check_args_count pair_p set_car store
builtin_set_car-eq h p z e = rw (load-eq h p e) (rw (load-eq h p e) refl)

builtin_set_cdr-eq :
    (h : Heap) (p z : ℕ) {x y : ℕ}
    → object_at h p ≡ some (Object.pair x y)
    → builtin_set_cdr (p ∷ z ∷ []) h ≡ ok (unspec_obj, put_at p (Object.pair x z) h)
unfolding builtin_set_cdr argument check_args_count pair_p set_cdr store
builtin_set_cdr-eq h p z e = rw (load-eq h p e) (rw (load-eq h p e) refl)

-- After `set-car!` on a pair, its `car` is the new object, its `cdr` is what it was, and at every other
-- address there is what there was.
pub record Assigned (h h' : Heap) (p z y : ℕ) : Type 0 where
  pub the_car : builtin_car (p ∷ []) h' ≡ ok (z, h')
  pub the_cdr : builtin_cdr (p ∷ []) h' ≡ ok (y, h')
  pub others : (q : ℕ) → p ≢ q → object_at h' q ≡ object_at h q

put_at-Assigned :
    (h : Heap) (p z y : ℕ) {o : Object}
    → object_at h p ≡ some o
    → Assigned h (put_at p (Object.pair z y) h) p z y
put_at-Assigned h p z y e =
    let there = object_at-put_at h p (Object.pair z y) e in
    record {
      the_car = car_at _ _ there;
      the_cdr = cdr_at _ _ there;
      others = λ q n. object_at-put_at_other h p q _ n;
    }

-- After set-car! on a pair its car is the new object, its cdr is what it was, and every other
-- object is what it was.
pub builtin_set_car-Assigned :
    (h : Heap) (p z : ℕ) {x y : ℕ}
    → object_at h p ≡ some (Object.pair x y)
    → (h' : Heap) × ((builtin_set_car (p ∷ z ∷ []) h ≡ ok (unspec_obj, h')) × Assigned h h' p z y)
builtin_set_car-Assigned h p z e = (_, (builtin_set_car-eq h p z e, put_at-Assigned h p z _ e))

pub builtin_set_cdr-Assigned :
    (h : Heap) (p z : ℕ) {x y : ℕ}
    → object_at h p ≡ some (Object.pair x y)
    → (h' : Heap) × ((builtin_set_cdr (p ∷ z ∷ []) h ≡ ok (unspec_obj, h')) × Assigned h h' p x z)
builtin_set_cdr-Assigned h p z e = (_, (builtin_set_cdr-eq h p z e, put_at-Assigned h p _ z e))

builtin_listp-diverge :
    (h : Heap) (f a : ℕ) → is_list f a h ≡ diverge → builtin_listp f (a ∷ []) h ≡ diverge
unfolding builtin_listp argument check_args_count
builtin_listp-diverge h f a e = rw e refl

-- After set-cdr! has made a pair its own cdr, list? never answers on it: no fuel is enough.
pub builtin_set_cdr-cycle :
    (h : Heap) (p : ℕ) {x y : ℕ}
    → object_at h p ≡ some (Object.pair x y)
    → (h' : Heap) × ((builtin_set_cdr (p ∷ p ∷ []) h ≡ ok (unspec_obj, h'))
        × ((f : ℕ) → builtin_listp f (p ∷ []) h' ≡ diverge))
builtin_set_cdr-cycle h p {x} {y} e =
    let h' = put_at p (Object.pair x p) h in
    let there : object_at h' p ≡ some (Object.pair x p) = object_at-put_at h p _ e in
    (
      h',
      (
        builtin_set_cdr-eq h p p e,
        λ f. builtin_listp-diverge h' f p (
            is_list-diverge h' (λ a. p ≡ a)
              (λ a q.
                (x, (p, (subst (λ b. object_at h' b ≡ some (Object.pair x p)) q there, refl))))
              f p refl),
      ),
    )
