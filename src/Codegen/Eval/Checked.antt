-- ===== src/Codegen/Eval/Checked.antt =====
-- `codeGenEval` of src/codegen.cc against `check`.
use llscheme.Base.{ℕ, suc, ◌≡◌, subst, refl, Bool, true, false, Option, none, some, List, [], ◌∷◌}
use llscheme.Base.Outcome.{ok, throws, fault, diverge}
use llscheme.Ast.{Node, Nodes, number, boolean, symbol, string, sexpr, none_left, arg, args_size}
use llscheme.Codegen
use llscheme.Codegen.{nil_type}
use llscheme.Codegen.Session.{Generate, Session}
use llscheme.Codegen.Forms.{
  Keyword, begin_key, define_key, lambda_key, quote_key, if_key, handler_of, handled, end_begin,
}
use llscheme.Codegen.Eval.{
  code_gen_eval, eval_args, eval_rest, handle_begin, handle_define, handle_lambda, handle_quote,
  handle_if,
}
use llscheme.Codegen.Eval.Check.{
  Names, Verdict, accept, ◌also◌, check_end, by_keyword, check, check_all, check_define,
  check_lambda, check_quote, check_if,
}
use llscheme.Codegen.Eval.Judged.{
  Judged, pure-Sound, throw-Sound, undefined-Sound, bind-Sound, then-Sound,
}
use llscheme.Codegen.Eval.Scoped.{Scoped}
use llscheme.Codegen.Eval.Functions.{
  Keeps, eval_symbol-Keeps, store_arg-Keeps, apply-Keeps, obj_new-Keeps, string_init-Keeps,
  new_unspec-Keeps, define_symbol-Keeps, if_code-Keeps,
}
use llscheme.Codegen.Eval.Closures.{create_function-Sound}
use llscheme.Codegen.Eval.Data.{check_datum-Keeps, number-Keeps, boolean-Keeps}

also_assoc : (u v w : Verdict) → ((u also v) also w) ≡ (u also (v also w))
also_assoc (ok u) v w = refl
also_assoc (throws e) v w = refl
also_assoc (fault e) v w = refl
also_assoc diverge v w = refl

also-accept : (v : Verdict) → (v also accept) ≡ v
also-accept (ok u) = refl
also-accept (throws e) = refl
also-accept (fault e) = refl
also-accept diverge = refl

end_begin-Keeps :
    {Γ : Names} {Γs : List Names} {f : ℕ} (d : Bool) (v : ℕ)
    → Keeps Γ Γs f (check_end d) (end_begin d v)
unfolding end_begin check_end
end_begin-Keeps true v = throw-Sound _
end_begin-Keeps false v = pure-Sound v

handled-Keeps :
    {Γ : Names} {Γs : List Names} {f : ℕ} (k : Option Keyword) {u v w x y z : Verdict}
    {m n o p q r : Generate ℕ}
    → Keeps Γ Γs f u m
    → Keeps Γ Γs f v n
    → Keeps Γ Γs f w o
    → Keeps Γ Γs f x p
    → Keeps Γ Γs f y q
    → Keeps Γ Γs f z r
    → Keeps Γ Γs f (by_keyword k u v w x y z) (handled k m n o p q r)
handled-Keeps none a b c d e g = a
handled-Keeps (some begin_key) a b c d e g = b
handled-Keeps (some define_key) a b c d e g = c
handled-Keeps (some lambda_key) a b c d e g = d
handled-Keeps (some quote_key) a b c d e g = e
handled-Keeps (some if_key) a b c d e g = g

mutual
  unfolding code_gen_eval check Codegen.code_gen_no_bind

  node-Keeps :
      (v : Node) (Γ : Names) (Γs : List Names) (f : ℕ) → Keeps Γ Γs f (check Γ v) (code_gen_eval v)
  node-Keeps (number val) Γ Γs f = number-Keeps val
  node-Keeps (boolean b) Γ Γs f = boolean-Keeps b
  node-Keeps (string str) Γ Γs f = string_init-Keeps str
  node-Keeps (symbol name) Γ Γs f = eval_symbol-Keeps name
  node-Keeps (sexpr none_left d) Γ Γs f = obj_new-Keeps nil_type
  node-Keeps (sexpr (arg (symbol name) rest) d) Γ Γs f =
      handled-Keeps (handler_of name)
        (apply-Keeps (args_size rest) (eval_symbol-Keeps name)
          λ addr. args-Keeps rest Γ Γs f addr 0)
        (begin-Keeps rest d Γ Γs f) (define-Keeps rest Γ Γs f) (lambda-Keeps rest Γ Γs f)
        (quote-Keeps rest Γ Γs f) (if-Keeps rest Γ Γs f)
  node-Keeps (sexpr (arg (sexpr as' d') rest) d) Γ Γs f =
      apply-Keeps (args_size rest) (node-Keeps (sexpr as' d') Γ Γs f)
        λ addr. args-Keeps rest Γ Γs f addr 0
  node-Keeps (sexpr (arg (number n) rest) d) Γ Γs f = throw-Sound _
  node-Keeps (sexpr (arg (boolean b) rest) d) Γ Γs f = throw-Sound _
  node-Keeps (sexpr (arg (string s) rest) d) Γ Γs f = throw-Sound _

  args-Keeps :
      (as' : Nodes) (Γ : Names) (Γs : List Names) (f addr i : ℕ)
      → Keeps Γ Γs f (check_all Γ as') (eval_args as' addr i)
  args-Keeps none_left Γ Γs f addr i = pure-Sound tt
  args-Keeps (arg a rest) Γ Γs f addr i =
      bind-Sound (node-Keeps a Γ Γs f)
        λ v. then-Sound (store_arg-Keeps addr i v) λ _. args-Keeps rest Γ Γs f addr (suc i)

  rest-Keeps :
      (as' : Nodes) (Γ : Names) (Γs : List Names) (f v : ℕ)
      → Keeps Γ Γs f (check_all Γ as') (eval_rest as' v)
  rest-Keeps none_left Γ Γs f v = pure-Sound v
  rest-Keeps (arg a rest) Γ Γs f v = bind-Sound (node-Keeps a Γ Γs f) λ w. rest-Keeps rest Γ Γs f w

  begin-Keeps :
      (as' : Nodes) (d : Bool) (Γ : Names) (Γs : List Names) (f : ℕ)
      → Keeps Γ Γs f (check_all Γ as' also check_end d) (handle_begin as' d)
  begin-Keeps none_left d Γ Γs f = then-Sound new_unspec-Keeps λ v. end_begin-Keeps d v
  begin-Keeps (arg a rest) d Γ Γs f = rw (also_assoc (check Γ a) (check_all Γ rest) (check_end d)) (
      bind-Sound (node-Keeps a Γ Γs f)
        λ w. bind-Sound (rest-Keeps rest Γ Γs f w) λ v. end_begin-Keeps d v)

  define-Keeps :
      (as' : Nodes) (Γ : Names) (Γs : List Names) (f : ℕ)
      → Keeps Γ Γs f (check_define Γ as') (handle_define as')
  define-Keeps none_left Γ Γs f = throw-Sound _
  define-Keeps (arg a none_left) Γ Γs f = throw-Sound _
  define-Keeps (arg (symbol name) (arg v none_left)) Γ Γs f =
      define_symbol-Keeps name (node-Keeps v Γ Γs f)
  define-Keeps (arg (symbol name) (arg v (arg w ws))) Γ Γs f = throw-Sound _
  define-Keeps (arg (sexpr none_left d) (arg v vs)) Γ Γs f = undefined-Sound _
  define-Keeps (arg (sexpr (arg (symbol name) formals) d) (arg v vs)) Γ Γs f =
      define_symbol-Keeps name (
        create_function-Sound formals name
          λ Δ g. bind-Sound (node-Keeps v Δ (Γ ∷ Γs) g) λ w. rest-Keeps vs Δ (Γ ∷ Γs) g w)
  define-Keeps (arg (sexpr (arg (number n) formals) d) (arg v vs)) Γ Γs f = undefined-Sound _
  define-Keeps (arg (sexpr (arg (boolean b) formals) d) (arg v vs)) Γ Γs f = undefined-Sound _
  define-Keeps (arg (sexpr (arg (string s) formals) d) (arg v vs)) Γ Γs f = undefined-Sound _
  define-Keeps (arg (sexpr (arg (sexpr ss c) formals) d) (arg v vs)) Γ Γs f = undefined-Sound _
  define-Keeps (arg (number n) (arg v vs)) Γ Γs f = throw-Sound _
  define-Keeps (arg (boolean b) (arg v vs)) Γ Γs f = throw-Sound _
  define-Keeps (arg (string s) (arg v vs)) Γ Γs f = throw-Sound _

  lambda-Keeps :
      (as' : Nodes) (Γ : Names) (Γs : List Names) (f : ℕ)
      → Keeps Γ Γs f (check_lambda Γ as') (handle_lambda as')
  lambda-Keeps none_left Γ Γs f = throw-Sound _
  lambda-Keeps (arg a none_left) Γ Γs f = throw-Sound _
  lambda-Keeps (arg (sexpr formals d) (arg v vs)) Γ Γs f =
      create_function-Sound formals []
        λ Δ g. bind-Sound (node-Keeps v Δ (Γ ∷ Γs) g) λ w. rest-Keeps vs Δ (Γ ∷ Γs) g w
  lambda-Keeps (arg (number n) (arg v vs)) Γ Γs f = throw-Sound _
  lambda-Keeps (arg (boolean b) (arg v vs)) Γ Γs f = throw-Sound _
  lambda-Keeps (arg (string s) (arg v vs)) Γ Γs f = throw-Sound _
  lambda-Keeps (arg (symbol s) (arg v vs)) Γ Γs f = throw-Sound _

  quote-Keeps :
      (as' : Nodes) (Γ : Names) (Γs : List Names) (f : ℕ)
      → Keeps Γ Γs f (check_quote as') (handle_quote as')
  quote-Keeps none_left Γ Γs f = throw-Sound _
  quote-Keeps (arg v none_left) Γ Γs f = check_datum-Keeps v
  quote-Keeps (arg v (arg w ws)) Γ Γs f = throw-Sound _

  if-Keeps :
      (as' : Nodes) (Γ : Names) (Γs : List Names) (f : ℕ)
      → Keeps Γ Γs f (check_if Γ as') (handle_if as')
  if-Keeps none_left Γ Γs f = throw-Sound _
  if-Keeps (arg t none_left) Γ Γs f = throw-Sound _
  if-Keeps (arg t (arg a none_left)) Γ Γs f =
      subst (λ v. Keeps Γ Γs f (check Γ t also v) (handle_if (arg t (arg a none_left))))
        (also-accept (check Γ a))
        (if_code-Keeps (node-Keeps t Γ Γs f) (node-Keeps a Γ Γs f) new_unspec-Keeps)
  if-Keeps (arg t (arg a (arg b none_left))) Γ Γs f =
      if_code-Keeps (node-Keeps t Γ Γs f) (node-Keeps a Γ Γs f) (node-Keeps b Γ Γs f)
  if-Keeps (arg t (arg a (arg b (arg c cs)))) Γ Γs f = throw-Sound _

-- From scopes in which the names Γ are bound, codeGenEval does what a reference checker tells from Γ and
-- the expression alone: it returns, throws the error that the checker names, or has the undefined
-- behaviour that it names. Where it returns, the names in scope are the same, in this scope and in each
-- outside it, and code goes on in the same function.
pub code_gen_eval-Judged :
    (v : Node) (Γ : Names) (Γs : List Names) (f : ℕ) (s : Session)
    → Scoped Γ Γs f s
    → Judged (λ _. Scoped Γ Γs f) (check Γ v) (code_gen_eval v s)
code_gen_eval-Judged v Γ Γs f s h = (node-Keeps v Γ Γs f).from s h
