-- ===== src/Runtime/Heap/Laws.antt =====
-- What is at an address after an allocation and after a store.
use llscheme.Base.{ℕ, zero, suc, ◌≡◌, ◌≢◌, refl, ap, some, [], ◌∷◌, ◌++◌, length}
use llscheme.Base.Outcome.{ok}
use llscheme.Runtime.Heap.{Object, Heap, object_in, object_at, put_in, put_at, load}

-- An allocated object is where it was after further allocations.
object_in-append :
    (h ext : Heap) (i : ℕ) {o : Object} → object_in h i ≡ some o → object_in (h ++ ext) i ≡ some o
object_in-append [] ext i e = cc
object_in-append (p ∷ h) ext zero e = e
object_in-append (p ∷ h) ext (suc i) e = object_in-append h ext i e

pub object_at-append :
    (h ext : Heap) (a : ℕ) {o : Object} → object_at h a ≡ some o → object_at (h ++ ext) a ≡ some o
unfolding object_at
object_at-append h ext zero e = cc
object_at-append h ext (suc i) e = object_in-append h ext i e

pub object_in-last : (h : Heap) (o : Object) → object_in (h ++ o ∷ []) (length h) ≡ some o
object_in-last [] o = refl
object_in-last (p ∷ h) o = object_in-last h o

pub put_in-last : (h : Heap) (o o' : Object) → put_in (length h) o' (h ++ o ∷ []) ≡ h ++ o' ∷ []
put_in-last [] o o' = refl
put_in-last (p ∷ h) o o' = ap (λ (t : Heap). p ∷ t) (put_in-last h o o')

object_in-put_in :
    (h : Heap) (i : ℕ) (o : Object) {o' : Object}
    → object_in h i ≡ some o'
    → object_in (put_in i o h) i ≡ some o
object_in-put_in [] i o e = cc
object_in-put_in (p ∷ h) zero o e = refl
object_in-put_in (p ∷ h) (suc i) o e = object_in-put_in h i o e

object_in-put_in_other :
    (h : Heap) (i j : ℕ) (o : Object) → i ≢ j → object_in (put_in i o h) j ≡ object_in h j
object_in-put_in_other [] i j o n = refl
object_in-put_in_other (p ∷ h) zero zero o n = absurd (n refl)
object_in-put_in_other (p ∷ h) zero (suc j) o n = refl
object_in-put_in_other (p ∷ h) (suc i) zero o n = refl
object_in-put_in_other (p ∷ h) (suc i) (suc j) o n =
    object_in-put_in_other h i j o (λ e. n (ap suc e))

-- A store replaces the object at its address.
pub object_at-put_at :
    (h : Heap) (a : ℕ) (o : Object) {o' : Object}
    → object_at h a ≡ some o'
    → object_at (put_at a o h) a ≡ some o
unfolding object_at put_at
object_at-put_at h zero o e = cc
object_at-put_at h (suc i) o e = object_in-put_in h i o e

-- A store leaves the objects at other addresses.
pub object_at-put_at_other :
    (h : Heap) (a b : ℕ) (o : Object) → a ≢ b → object_at (put_at a o h) b ≡ object_at h b
unfolding object_at put_at
object_at-put_at_other h zero b o n = refl
object_at-put_at_other h (suc i) zero o n = refl
object_at-put_at_other h (suc i) (suc j) o n = object_in-put_in_other h i j o (λ e. n (ap suc e))

pub load-eq : (h : Heap) (a : ℕ) {o : Object} → object_at h a ≡ some o → load a h ≡ ok (o, h)
unfolding load
load-eq h a e = rw e
