-- ===== src/Ast/Print.antt =====
-- `finePrint` of src/include/astnodes.hh, which the option -d of the compiler runs.
pub mod Readable
pub mod Singletons
use llscheme.Base.{Bool, true, false, [], ◌∷◌, ◌++◌, Text, codes, if◌then◌else◌}
use llscheme.Base.Outcome.{Outcome, ok, fault, and_then, out_of_bounds}
use llscheme.Ast.{Node, Nodes, number, boolean, symbol, string, sexpr, none_left, arg}

-- `print_args` is the body of the `if (size > 0)`, and `print_rest` what follows the first argument:
-- the loop up to the last but one, and the last. With one argument the code reads `args[1]`.
unfoldable mutual
  pub fine_print : Node → Outcome Text
  fine_print (number val) = ok val
  fine_print (boolean b) = ok (if b then codes "#t" else codes "#f")
  fine_print (symbol s) = ok s
  fine_print (string s) = ok (b'"' ∷ s ++ b'"' ∷ [])
  fine_print (sexpr args d) = and_then (print_args args d) λ s. ok (b'(' ∷ s ++ b')' ∷ [])

  pub print_args : Nodes → Bool → Outcome Text
  print_args none_left d = ok []
  print_args (arg a as') d =
      and_then (fine_print a) λ s. and_then (print_rest as' d) λ r. ok (s ++ r)

  pub print_rest : Nodes → Bool → Outcome Text
  print_rest none_left d = fault out_of_bounds
  print_rest (arg b none_left) d =
      and_then (fine_print b) λ s. ok ((if d then codes " ." else []) ++ b' ' ∷ s)
  print_rest (arg b (arg c cs)) d =
      and_then (fine_print b) λ s. and_then (print_rest (arg c cs) d) λ r. ok (b' ' ∷ s ++ r)
