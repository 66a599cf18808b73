-- ===== src/Examples/Constants.antt =====
-- Constants and quoted data that code is generated for: src/codegen.cc.
use llscheme.Base.{◌≡◌, ◌≤◌, refl, true, false, [], length, codes, int_max}
use llscheme.Ast.{Node, number, symbol, sexpr, none_left, arg}
use llscheme.Codegen.{emit, call_new_object, number_fits_int32, all_digits, atoi, code_gen_no_bind}
use llscheme.Codegen.Numbers.{number_fits_int32-bound}
use llscheme.Codegen.Memory.Quoted.{q_number, q_symbol, q_list, q_last}
use llscheme.Codegen.Memory.Quoted.Builds.{Built}
use llscheme.Codegen.Memory.Quoted.Whole.{code_gen_no_bind-Built}

number_fits_int32-bound_example :
    (length (codes "42") ≤ 9) × ((all_digits (codes "42") ≡ true) × (atoi (codes "42") ≤ int_max))
unfolding number_fits_int32
number_fits_int32-bound_example = number_fits_int32-bound (codes "42") refl

-- `(x 42)`
abbrev datum : Node
datum = sexpr (arg (symbol (codes "x")) (arg (number (codes "42")) none_left)) false

code_gen_no_bind-Built_example :
    Built [] datum (code_gen_no_bind emit (λ val. emit (call_new_object 2)) datum [])
unfolding number_fits_int32
code_gen_no_bind-Built_example =
    code_gen_no_bind-Built (λ val. emit (call_new_object 2))
      (q_list (q_symbol (codes "x")) (q_last (q_number (codes "42") refl))) []
