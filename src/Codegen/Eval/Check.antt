-- ===== src/Codegen/Eval/Check.antt =====
-- The errors of `codeGenEval` of src/codegen.cc, told from the expression and the names in scope alone.
use llscheme.Base.{
  Bool, true, false, ◌||◌, Option, none, some, List, [], ◌∷◌, ◌++◌, Text, codes, same_text,
  if◌then◌else◌,
}
use llscheme.Base.Outcome.{
  Outcome, ok, throws, fault, and_then, out_of_bounds, bad_cast, bad_syntax,
}
use llscheme.Ast.{Node, Nodes, symbol, sexpr, none_left, arg}
use llscheme.Codegen.Forms.{
  Keyword, begin_key, define_key, lambda_key, quote_key, if_key, handler_of,
}

abbrev pub Names : Type 0
Names = List Text

abbrev pub in_scope : Text → Names → Bool
in_scope k [] = false
in_scope k (n ∷ ns) = same_text n k || in_scope k ns

abbrev pub Verdict : Type 0
Verdict = Outcome (Unit {0})

abbrev pub accept : Verdict
accept = ok tt

abbrev pub refuse : Text → Verdict
refuse txt = throws (bad_syntax txt)

infixr 3 ◌also◌
abbrev pub ◌also◌ : Verdict → Verdict → Verdict
v also w = and_then v λ _. w

unfoldable mutual
  -- a dotted list with nothing in front of its dot, or something that it is part of
  pub has_lone_dot : Node → Bool
  has_lone_dot (sexpr none_left d) = false
  has_lone_dot (sexpr (arg a none_left) d) = has_lone_dot a || d
  has_lone_dot (sexpr (arg a (arg b bs)) d) = has_lone_dot a || any_lone_dot (arg b bs)
  has_lone_dot _ = false

  pub any_lone_dot : Nodes → Bool
  any_lone_dot none_left = false
  any_lone_dot (arg a as') = has_lone_dot a || any_lone_dot as'

unfoldable pub check_datum : Node → Verdict
check_datum v = if has_lone_dot v then fault out_of_bounds else accept

unfoldable pub check_new : Names → Text → Verdict
check_new Γ name =
    if in_scope name Γ then refuse (codes "re-definition of symbol: " ++ name) else accept

-- formal parameters, which come into scope one after the other
unfoldable pub check_formals : Names → Nodes → Outcome Names
check_formals Γ none_left = ok Γ
check_formals Γ (arg (symbol name) rest) = check_formals (name ∷ Γ) rest
check_formals Γ (arg _ rest) = throws (bad_syntax (codes "constants found in parameter list"))

unfoldable pub check_end : Bool → Verdict
check_end true = refuse (codes "unexpected `.' in begin")
check_end false = accept

-- the case of a keyword, or else of a call
abbrev pub by_keyword :
    Option Keyword → Verdict → Verdict → Verdict → Verdict → Verdict → Verdict → Verdict
by_keyword none call begin_form define_form lambda_form quote_form if_form = call
by_keyword (some begin_key) call begin_form define_form lambda_form quote_form if_form = begin_form
by_keyword (some define_key) call begin_form define_form lambda_form quote_form if_form =
    define_form
by_keyword (some lambda_key) call begin_form define_form lambda_form quote_form if_form =
    lambda_form
by_keyword (some quote_key) call begin_form define_form lambda_form quote_form if_form = quote_form
by_keyword (some if_key) call begin_form define_form lambda_form quote_form if_form = if_form

unfoldable mutual
  pub check : Names → Node → Verdict
  check Γ (sexpr none_left d) = accept
  check Γ (sexpr (arg (symbol name) rest) d) =
      by_keyword (handler_of name) (check_all Γ rest) (check_all Γ rest also check_end d)
        (check_define Γ rest) (check_lambda Γ rest) (check_quote rest) (check_if Γ rest)
  check Γ (sexpr (arg (sexpr as' d') rest) d) = check Γ (sexpr as' d') also check_all Γ rest
  check Γ (sexpr (arg _ rest) d) = refuse (codes "not a function")
  check Γ _ = accept

  pub check_all : Names → Nodes → Verdict
  check_all Γ none_left = accept
  check_all Γ (arg a rest) = check Γ a also check_all Γ rest

  pub check_define : Names → Nodes → Verdict
  check_define Γ none_left = refuse (codes "too few arguments for define")
  check_define Γ (arg a none_left) = refuse (codes "too few arguments for define")
  check_define Γ (arg (symbol name) (arg v none_left)) = check_new Γ name also check Γ v
  check_define Γ (arg (symbol name) (arg v (arg w ws))) =
      refuse (codes "defining symbol takes 2 arguments")
  check_define Γ (arg (sexpr none_left d) (arg v vs)) = fault out_of_bounds
  check_define Γ (arg (sexpr (arg (symbol name) formals) d) (arg v vs)) =
      check_new Γ name also and_then (check_formals Γ formals) λ Δ. check Δ v also check_all Δ vs
  check_define Γ (arg (sexpr (arg _ formals) d) (arg v vs)) = fault bad_cast
  check_define Γ (arg _ (arg v vs)) = refuse (codes "bad syntax for define")

  pub check_lambda : Names → Nodes → Verdict
  check_lambda Γ none_left = refuse (codes "too few arguments for lambda")
  check_lambda Γ (arg a none_left) = refuse (codes "too few arguments for lambda")
  check_lambda Γ (arg (sexpr formals d) (arg v vs)) =
      and_then (check_formals Γ formals) λ Δ. check Δ v also check_all Δ vs
  check_lambda Γ (arg _ (arg v vs)) = refuse (codes "lambda expects argument list")

  pub check_quote : Nodes → Verdict
  check_quote (arg v none_left) = check_datum v
  check_quote _ = refuse (codes "quote takes only one argument")

  pub check_if : Names → Nodes → Verdict
  check_if Γ (arg t (arg a none_left)) = check Γ t also check Γ a
  check_if Γ (arg t (arg a (arg b none_left))) = check Γ t also (check Γ a also check Γ b)
  check_if Γ _ = refuse (codes "if takes 2 or 3 arguments")
