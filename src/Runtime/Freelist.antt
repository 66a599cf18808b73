-- ===== src/Runtime/Freelist.antt =====
-- The lists of captured objects in src/runtime/utils.c, which the code of a function is given.
use llscheme.Base.{
  ℕ, zero, suc, ◌≡◌, refl, ap, ◌∙◌, List, [], ◌∷◌, ◌++◌, append_assoc, length, length-append, arith,
}
use llscheme.Base.Outcome.{Outcome, ok, fault, out_of_bounds, and_then}

-- `lsrt_new_freelist`
unfoldable pub new_freelist : ℕ → List ℕ
new_freelist zero = []
new_freelist (suc count) = 0 ∷ new_freelist count

abbrev with_head : ℕ → Outcome (List ℕ) → Outcome (List ℕ)
with_head x o = and_then o λ xs. ok (x ∷ xs)

-- `lsrt_fill_freelist`: a store at an index
unfoldable pub fill_freelist : List ℕ → ℕ → ℕ → Outcome (List ℕ)
fill_freelist [] i obj = fault out_of_bounds
fill_freelist (x ∷ xs) zero obj = ok (obj ∷ xs)
fill_freelist (x ∷ xs) (suc i) obj = with_head x (fill_freelist xs i obj)

-- the calls that the code of a function makes, one for each captured object
unfoldable pub fill_from : List ℕ → ℕ → List ℕ → Outcome (List ℕ)
unfolding fill_freelist
fill_from block i [] = ok block
fill_from block i (obj ∷ objs) = and_then (fill_freelist block i obj) λ b. fill_from b (suc i) objs

fill_freelist-append :
    (done : List ℕ) (count obj : ℕ)
    → fill_freelist (done ++ new_freelist (suc count)) (length done) obj
      ≡ ok ((done ++ obj ∷ []) ++ new_freelist count)
unfolding fill_freelist new_freelist
fill_freelist-append [] count obj = refl
fill_freelist-append (x ∷ done) count obj = rw (fill_freelist-append done count obj) refl

fill_from-append :
    (done objs : List ℕ)
    → fill_from (done ++ new_freelist (length objs)) (length done) objs ≡ ok (done ++ objs)
unfolding fill_from new_freelist
fill_from-append done [] = refl
fill_from-append done (obj ∷ objs) =
    let one_more : length (done ++ obj ∷ []) ≡ suc (length done) =
      omega (arith, length-append done (obj ∷ [])) in
    let rest = fill_from-append (done ++ obj ∷ []) objs in
    rw (fill_freelist-append done (length objs) obj, ← one_more)
      (rest ∙ ap ok (append_assoc done (obj ∷ []) objs))

-- The calls fill a new list: every element, in order, and none outside it.
fill_from-new_freelist : (objs : List ℕ) → fill_from (new_freelist (length objs)) 0 objs ≡ ok objs
fill_from-new_freelist objs = fill_from-append [] objs
