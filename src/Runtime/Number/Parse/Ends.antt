-- ===== src/Runtime/Number/Parse/Ends.antt =====
-- How many rounds the reader of numbers in src/runtime/number.c takes.
use llscheme.Base.{
  ℕ, zero, suc, ◌+◌, ◌<◌, ◌≡◌, refl, Bool, true, false, not, ◌&&◌, ◌||◌, Option, none, some, [],
  ◌∷◌, Text, arith, if◌then◌else◌,
}
use llscheme.Base.Outcome.{Error, Fault, Outcome, ok, throws, fault, and_then}
use llscheme.Runtime.Number.{Gmp, Real, small, big, rational, inexact, divided, re_canonicalize}
use llscheme.Runtime.Number.Objects.{Number, update_re}
use llscheme.Runtime.Number.Scan.{starts_with}
use llscheme.Runtime.Number.Parse.{
  Part, Readers, without_plus, read_type, read_part, Ston, go_on, imaginary, ston_part, ston_from,
  read_decimal, behind_prefixes, ston, parse_part, prefixes, radix_or,
}

-- an outcome for which the rounds were enough
pub data Ends {A : Type 0} : Outcome A → Type 0 where
  returns : (a : A) → Ends (ok a)
  raises : (e : Error) → Ends (throws e)
  breaks : (e : Fault) → Ends (fault e)

then-Ends :
    {A B : Type 0} {x : Outcome A} {f : A → Outcome B}
    → Ends x
    → ((a : A) → Ends (f a))
    → Ends (and_then x f)
then-Ends (returns a) k = k a
then-Ends (raises e) k = raises e
then-Ends (breaks e) k = breaks e

if-Ends :
    {A : Type 0} (c : Bool) {x y : Outcome A}
    → (c ≡ true → Ends x)
    → (c ≡ false → Ends y)
    → Ends (if c then x else y)
if-Ends true p q = p refl
if-Ends false p q = q refl

-- how many parts are still allowed
abbrev parts_left : Bool → Bool → ℕ
parts_left re im = (if re then 1 else 0) + (if im then 1 else 0)

im_allowed :
    (is_im re im : Bool)
    → is_im ≡ true
    → (is_im && not im || not is_im && not re) ≡ false
    → parts_left re false < parts_left re im
im_allowed is_im re im i e = ground arith

re_allowed :
    (is_im re im : Bool)
    → is_im ≡ false
    → (is_im && not im || not is_im && not re) ≡ false
    → parts_left false im < parts_left re im
re_allowed is_im re im i e = ground arith

module _ {g : Gmp} (readers : Readers g)
    (set_decimal-Ends : (txt : Text) (radix : ℕ) → Ends (readers.set_decimal txt radix)) where
  divided-Ends : {A B : Type 0} (f : A → B) (o : Option A) → Ends (divided f o)
  divided-Ends f none = breaks _
  divided-Ends f (some a) = returns _

  re_canonicalize-Ends : (x : Real g) → Ends (re_canonicalize g x)
  unfolding re_canonicalize
  re_canonicalize-Ends (small v) = returns _
  re_canonicalize-Ends (big z) = returns _
  re_canonicalize-Ends (rational q) = divided-Ends _ _
  re_canonicalize-Ends (inexact f) = returns _

  read_decimal-Ends :
      (exactness : Option Bool) (radix precision : ℕ) (txt : Text)
      → Ends (read_decimal readers exactness radix precision txt)
  read_decimal-Ends none radix precision txt = returns _
  read_decimal-Ends (some true) radix precision txt =
      then-Ends (set_decimal-Ends txt radix) λ q. returns _
  read_decimal-Ends (some false) radix precision txt = returns _

  read_type-Ends :
      (exactness : Option Bool) (radix : ℕ) (p : Part) → Ends (read_type readers exactness radix p)
  unfolding read_type
  read_type-Ends exactness radix p =
      if-Ends (starts_with b'i' p.behind && p.first.iunit) (λ _. returns _)
        λ _.
          if-Ends p.first.decimal
            (λ _. read_decimal-Ends exactness radix p.first.precision (without_plus p.text))
            λ _. if-Ends p.fraction (λ _. returns _) λ _. returns _

  read_part-Ends :
      (exactness : Option Bool) (radix : ℕ) (p : Part) → Ends (read_part readers exactness radix p)
  unfolding read_part
  read_part-Ends exactness radix p =
      then-Ends (read_type-Ends exactness radix p) λ x. re_canonicalize-Ends _

  go_on-Ends :
      {next : Text → Ston readers} (n : Number g) (txt : Text)
      → ((rest : Text) → Ends (next rest))
      → Ends (go_on readers next n txt)
  go_on-Ends n [] k = returns _
  go_on-Ends n (c ∷ cs) k = k (c ∷ cs)

  imaginary-Ends :
      {next : Number g → Text → Ston readers} (n : Number g) (p : Part) (txt : Text) (x : Real g)
      → ((m : Number g) (rest : Text) → Ends (next m rest))
      → Ends (imaginary readers next n p txt x)
  imaginary-Ends n p [] x k = returns _
  imaginary-Ends n p (c ∷ cs) x k =
      if-Ends p.first.signed (λ _. go_on-Ends _ cs (k _)) (λ _. returns _)

  -- a round that ends, if the next one does with a part less
  ston_part-Ends :
      (next : Bool → Bool → Number g → Text → Ston readers) (exactness : Option Bool) (radix : ℕ)
      (re im : Bool) (n : Number g) (p : Option Part)
      → ((re' im' : Bool)
          → parts_left re' im' < parts_left re im
          → (m : Number g) (rest : Text) → Ends (next re' im' m rest))
      → Ends (ston_part readers next exactness radix re im n p)
  unfolding ston_part
  ston_part-Ends next exactness radix re im n none k = returns _
  ston_part-Ends next exactness radix re im n (some p) k =
      let is_im : Bool = starts_with b'i' p.behind in
      if-Ends (is_im && not im || not is_im && not re) (λ _. returns _)
        λ e.
          if-Ends (is_im && p.first.iunit && not p.first.signed) (λ _. returns _)
            λ _.
              if-Ends is_im
                (λ i.
                  then-Ends (read_part-Ends exactness radix p)
                    λ x. imaginary-Ends n p p.behind x (k re false (im_allowed is_im re im i e)))
                (λ i. then-Ends (read_part-Ends exactness radix p) λ x.
                  go_on-Ends (update_re g n x) p.behind
                    (λ rest. k false im (re_allowed is_im re im i e) (update_re g n x) rest))

  ston_from-Ends :
      (k : ℕ) (exactness : Option Bool) (radix : ℕ) (re im : Bool) (n : Number g) (txt : Text)
      → parts_left re im < k
      → Ends (ston_from readers k exactness radix re im n txt)
  unfolding ston_from
  ston_from-Ends zero exactness radix re im n txt l = absurd (omega (arith, l))
  ston_from-Ends (suc k) exactness radix re im n txt l =
      ston_part-Ends _ exactness radix re im n (parse_part radix txt)
        λ re' im' m n' rest. ston_from-Ends k exactness radix re' im' n' rest (omega (arith, l, m))

  behind_prefixes-Ends :
      (k : ℕ) (n : Number g) (defradix : ℕ) (o : Option (Option Bool × Option ℕ × Text))
      → 2 < k
      → Ends (behind_prefixes readers k n defradix o)
  behind_prefixes-Ends k n defradix none l = returns _
  behind_prefixes-Ends k n defradix (some (exactness, radix, txt)) l =
      ston_from-Ends k exactness (radix_or readers defradix radix) true true n txt
        (omega (arith, l))

  -- If the reader of exact decimals ends, _ston ends on every text within three rounds: each round uses up
  -- the real or the imaginary part.
  pub ston-Ends :
      (k : ℕ) (n : Number g) (txt : Text) (defradix : ℕ)
      → 2 < k
      → Ends (ston readers k n txt defradix)
  unfolding ston
  ston-Ends k n txt defradix l = behind_prefixes-Ends k n defradix (prefixes none none txt) l
