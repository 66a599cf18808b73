-- ===== src/Ast/Print/Singletons.antt =====
-- `finePrint` and the lists with exactly one argument.
use llscheme.Base.{◌≡◌, refl, arith, ◌⊎◌, inl, inr, Bool, true, false, [], ◌∷◌, ◌++◌, ◌||◌, Text}
use llscheme.Base.Outcome.{Outcome, ok, fault, and_then, out_of_bounds}
use llscheme.Ast.{Node, Nodes, number, boolean, symbol, string, sexpr, none_left, arg}
use llscheme.Ast.Print.{fine_print, print_rest}

pub is_empty : Nodes → Bool
is_empty none_left = true
is_empty (arg a as') = false

mutual
  -- whether a list with exactly one argument occurs in the node
  pub has_single : Node → Bool
  has_single (sexpr none_left d) = false
  has_single (sexpr (arg a as') d) = is_empty as' || (has_single a || any_single as')
  has_single _ = false

  pub any_single : Nodes → Bool
  any_single none_left = false
  any_single (arg a as') = has_single a || any_single as'

-- A text, or the fault, by a test.
data Decided : Bool → Outcome Text → Type 0 where
  prints : (s : Text) → Decided false (ok s)
  faults : Decided true (fault out_of_bounds)

Decided-map :
    {x : Bool} {r : Outcome Text} (f : Text → Text)
    → Decided x r
    → Decided x (and_then r λ s. ok (f s))
Decided-map f (prints s) = prints (f s)
Decided-map f faults = faults

Decided-then :
    {x y : Bool} {r : Outcome Text} {f : Text → Outcome Text}
    → Decided x r
    → ((s : Text) → Decided y (f s))
    → Decided (x || y) (and_then r f)
Decided-then (prints s) h = h s
Decided-then faults h = faults

swap : (x y z : Bool) → x || (y || z) ≡ y || (x || z)
swap true y z = ground arith
swap false y z = refl

mutual
  unfolding has_single is_empty fine_print

  fine_print-Decided : (v : Node) → Decided (has_single v) (fine_print v)
  fine_print-Decided (number t) = prints t
  fine_print-Decided (boolean b) = prints _
  fine_print-Decided (symbol t) = prints t
  fine_print-Decided (string t) = prints _
  fine_print-Decided (sexpr none_left d) = prints _
  fine_print-Decided (sexpr (arg a as') d) =
      Decided-map (λ s. b'(' ∷ s ++ b')' ∷ [])
        (rw (swap (is_empty as') (has_single a) (any_single as')) (
          Decided-then (fine_print-Decided a)
            λ s. Decided-map (λ r. s ++ r) (print_rest-Decided as' d)))

  print_rest-Decided :
      (vs : Nodes) (d : Bool) → Decided (is_empty vs || any_single vs) (print_rest vs d)
  print_rest-Decided none_left d = faults
  print_rest-Decided (arg b none_left) d = Decided-then (fine_print-Decided b) λ s. prints _
  print_rest-Decided (arg b (arg c cs)) d =
      Decided-then (fine_print-Decided b)
        λ s. Decided-map (λ r. b' ' ∷ s ++ r) (print_rest-Decided (arg c cs) d)

-- finePrint reads beyond the arguments of a list exactly if a list with one argument occurs in the node,
-- and prints any other node.
pub fine_print-cases :
    (v : Node)
    → ((has_single v ≡ true) × (fine_print v ≡ fault out_of_bounds))
      ⊎ ((has_single v ≡ false) × ((s : Text) × (fine_print v ≡ ok s)))
fine_print-cases v = decided (fine_print-Decided v)
  where
    decided :
        {x : Bool} {r : Outcome Text}
        → Decided x r
        → ((x ≡ true) × (r ≡ fault out_of_bounds)) ⊎ ((x ≡ false) × ((s : Text) × (r ≡ ok s)))
    decided (prints s) = inr (refl, (s, refl))
    decided faults = inl (refl, refl)
