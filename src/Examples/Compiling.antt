-- ===== src/Examples/Compiling.antt =====
-- Code generation for a small program and for erroneous ones.
use llscheme.Base.{ℕ, ◌≡◌, ◌↔◌, refl, false, [], ◌∷◌, codes}
use llscheme.Base.Outcome.{ok, throws, bad_syntax}
use llscheme.Ast.{Node, Nodes, number, symbol, sexpr, none_left, arg}
use llscheme.Env.Maps.{find}
use llscheme.Env.Scopes.{outermost}
use llscheme.Codegen.Session.{Session}
use llscheme.Codegen.Forms.{handler_of}
use llscheme.Codegen.Eval.{code_gen_eval}
use llscheme.Codegen.Eval.Check.{check, check_new, check_formals}
use llscheme.Codegen.Eval.Judged.{Judged}
use llscheme.Codegen.Eval.Scoped.{Scoped, layer, all_told}
use llscheme.Codegen.Eval.Checked.{code_gen_eval-Judged}
use llscheme.Codegen.Eval.Accepted.{code_gen_eval-returns_iff}
use llscheme.Codegen.Eval.Legal.{Legal}

-- the scopes of `new_env`
abbrev start : Session
start = record {
  eenv = record { global = []; lexical = [] ∷ []; refs = [] ∷ []; next_value = 0 };
  place = record { block = 0; func = 0 };
  requests = [];
}

abbrev one : Node → Nodes
one a = arg a none_left

-- (define (add x) (lambda (y) (+ x y)))
abbrev add_definition : Node
add_definition =
    sexpr
      (arg (symbol (codes "define")) (
        arg (sexpr (arg (symbol (codes "add")) (one (symbol (codes "x")))) false) (
          one (
            sexpr
              (arg (symbol (codes "lambda")) (
                arg (sexpr (one (symbol (codes "y"))) false) (
                  one (
                    sexpr
                      (arg (symbol (codes "+"))
                        (arg (symbol (codes "x")) (one (symbol (codes "y")))))
                      false))))
              false))))
      false

-- (lambda (x) (define x 1))
abbrev redefinition : Node
redefinition =
    sexpr
      (arg (symbol (codes "lambda")) (
        arg (sexpr (one (symbol (codes "x"))) false) (
          one (
            sexpr
              (arg (symbol (codes "define")) (arg (symbol (codes "x")) (one (number (codes "1")))))
              false))))
      false

start-Scoped : Scoped [] [] 0 start
unfolding find
start-Scoped = record { scoped = outermost []; layers = layer (λ k. refl) all_told; inside = refl }

code_gen_eval-Judged_example :
    Judged (λ _. Scoped [] [] 0) (check [] add_definition) (code_gen_eval add_definition start)
code_gen_eval-Judged_example = code_gen_eval-Judged add_definition [] [] 0 start start-Scoped

code_gen_eval-returns_iff_example :
    ((x : ℕ) × (s : Session) × (code_gen_eval redefinition start ≡ ok (x, s)))
    ↔ Legal [] redefinition
code_gen_eval-returns_iff_example =
    code_gen_eval-returns_iff redefinition [] [] 0 start start-Scoped

check_of_add : check [] add_definition ≡ ok tt
unfolding check check_new check_formals handler_of
check_of_add = refl

check_of_redefinition :
    check [] redefinition ≡ throws (bad_syntax (codes "re-definition of symbol: x"))
unfolding check check_new check_formals handler_of
check_of_redefinition = refl
