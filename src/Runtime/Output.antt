-- ===== src/Runtime/Output.antt =====
-- src/runtime/io.c: the text that `display` prints. The state is what has been printed.
pub mod Values
pub mod Shown
use llscheme.Base.{
  ℕ, zero, suc, ◌+◌, Bool, true, false, Option, none, some, List, [], ◌∷◌, ◌++◌, Text, codes, ℤ,
  pos, negsuc, length, ◌==◌, if◌then◌else◌,
}
use Prim.Native.Nat.{◌%◌, ◌/◌}
use llscheme.Base.Outcome.{
  Outcome, ok, Routine, ◌>>=◌, ◌>>◌, pure, undefined, looping, null_pointer, out_of_bounds,
  and_then,
}
use llscheme.Runtime.Heap.{Object, Heap, object_at, unspec_obj}
use llscheme.Runtime.Utils.{check_args_count}

abbrev pub Print : Type 0
Print = Routine Text (Unit {0})

unfoldable pub print : Text → Print
print txt out = ok (tt, out ++ txt)

-- the format `%d`: an `int` has at most ten digits
unfoldable pub digits : ℕ → ℕ → Text → Text
digits zero n txt = txt
digits (suc k) n txt =
    let txt' : Text = (b'0' + n % 10) ∷ txt in
    let rest = digits k (n / 10) txt' in if n / 10 == 0 then txt' else rest

unfoldable pub decimal : ℤ → Text
unfolding digits
decimal (pos n) = digits 10 n []
decimal (negsuc n) = b'-' ∷ digits 10 (suc n) []

-- the calls `printf("(")` and `printf(")")` under `!fp`
unfoldable pub unless : Bool → Text → Print
unfolding print
unless true txt = pure tt
unless false txt = print txt

-- What io.c gets from elsewhere: `ntos` is the text of a number that is no `int`, which GMP formats, and
-- `address` the format `%p`.
pub record Formats : Type 0 where
  pub ntos : ℕ → ℤ → Text
  pub address : ℕ → Text

-- The part of `_display` for a pair behind its car, where the cdr `o` is at the address `d`.
unfoldable pub display_cdr : (ℕ → Bool → Print) → ℕ → Option Object → Print
unfolding print
display_cdr display d none = undefined null_pointer
display_cdr display d (some Object.nil) = pure tt
display_cdr display d (some (Object.pair x y)) = do print (codes " "); display d true
display_cdr display d (some _) = do print (codes " . "); display d true

-- the loop along a vector of `len` elements
unfoldable pub display_elements : (ℕ → Bool → Print) → ℕ → List ℕ → Print
unfolding print
display_elements display zero es = pure tt
display_elements display (suc len) [] = undefined out_of_bounds
display_elements display (suc zero) (e ∷ es) = display e false
display_elements display (suc (suc len)) (e ∷ es) = do
  display e false
  print (codes " ")
  display_elements display (suc len) es

abbrev pub display_vector : (ℕ → Bool → Print) → ℤ → List ℕ → Print
display_vector display (pos len) es = display_elements display len es
display_vector display (negsuc n) es = pure tt

module _ (formats : Formats) (h : Heap) where
  -- the switch of `_display`
  unfoldable pub display_object : (ℕ → Bool → Print) → ℕ → Bool → Option Object → Print
  unfolding print decimal unless display_cdr display_elements
  display_object display a fp none = undefined null_pointer
  display_object display a fp (some (Object.number zero v)) = print (decimal v)
  display_object display a fp (some (Object.number (suc s) v)) = print (formats.ntos (suc s) v)
  display_object display a fp (some (Object.boolean (pos zero))) = print (codes "#f")
  display_object display a fp (some (Object.boolean _)) = print (codes "#t")
  display_object display a fp (some (Object.symbol d name)) = print name
  display_object display a fp (some (Object.string s)) = print (b'"' ∷ s ++ codes "\"")
  display_object display a fp (some (Object.pair x y)) = do
    unless fp (codes "(")
    display x false
    display_cdr display y (object_at h y)
    unless fp (codes ")")
  display_object display a fp (some Object.nil) = print (codes "()")
  display_object display a fp (some (Object.func c free)) =
      print (codes "#<procedure " ++ formats.address a ++ codes ">")
  display_object display a fp (some (Object.vector len es)) = do
    print (codes "#(")
    display_vector display len es
    print (codes ")")
  display_object display a fp (some Object.unspec) = print (codes "#<unspecified>")

  -- `_display`; each call takes one round of the fuel.
  unfoldable pub display_from : ℕ → ℕ → Bool → Print
  unfolding display_object
  display_from zero a fp = looping
  display_from (suc f) a fp = display_object (λ b fq. display_from f b fq) a fp (object_at h a)

  unfoldable pub display_first : ℕ → List ℕ → Routine Text ℕ
  unfolding display_from print
  display_first f [] = undefined out_of_bounds
  display_first f (a ∷ args) = do display_from f a false; print (codes "\n"); pure unspec_obj

  unfoldable pub builtin_display : ℕ → List ℕ → Routine Text ℕ
  unfolding display_first
  builtin_display f args out =
      and_then (check_args_count 1 1 (length args) h) λ r. display_first f args out
