-- ===== src/Codegen/Eval/Accepted.antt =====
-- The relation of Legal against the test of Check, for src/codegen.cc.
use llscheme.Base.{
  ℕ, ◌≡◌, ◌↔◌, refl, Bool, true, false, Bool-cases, inl, inr, Option, none, some, List, ◌∷◌, Text,
}
use llscheme.Base.Outcome.{Outcome, ok, throws, fault, diverge, and_then}
use llscheme.Ast.{Node, Nodes, number, boolean, symbol, string, sexpr, none_left, arg}
use llscheme.Codegen.Session.{Session}
use llscheme.Codegen.Forms.{
  Keyword, begin_key, define_key, lambda_key, quote_key, if_key, handler_of,
}
use llscheme.Codegen.Eval.{code_gen_eval}
use llscheme.Codegen.Eval.Check.{
  Names, in_scope, Verdict, accept, ◌also◌, has_lone_dot, check_datum, check_new, check_formals,
  check_end, by_keyword, check, check_all, check_define, check_lambda, check_quote, check_if,
}
use llscheme.Codegen.Eval.Judged.{Judged, passes, raises, breaks}
use llscheme.Codegen.Eval.Scoped.{Scoped}
use llscheme.Codegen.Eval.Checked.{code_gen_eval-Judged}
use llscheme.Codegen.Eval.Legal.{
  Formals, no_formals, formal, Legal, a_number, a_boolean, a_string, a_name, nothing, call_named,
  call_computed, begin_form, define_value, define_function, lambda_form, quote_form, if_then,
  if_else, LegalAll, no_more, and_more, Legal-check,
}

also-inv : (u v : Verdict) → (u also v) ≡ accept → (u ≡ accept) × (v ≡ accept)
also-inv (ok u) v e = (refl, e)
also-inv (throws x) v e = cc
also-inv (fault x) v e = cc
also-inv diverge v e = cc

parameters-inv :
    (Γ : Names) (formals : Nodes) (w : Names → Verdict)
    → and_then (check_formals Γ formals) w ≡ accept
    → (Δ : Names) × Formals Γ formals Δ × (w Δ ≡ accept)
unfolding check_formals
parameters-inv Γ none_left w e = (Γ, no_formals, e)
parameters-inv Γ (arg (symbol x) rest) w e =
    let (Δ, p, h) = parameters-inv (x ∷ Γ) rest w e in (Δ, formal p, h)
parameters-inv Γ (arg (number n) rest) w e = cc
parameters-inv Γ (arg (boolean b) rest) w e = cc
parameters-inv Γ (arg (string s) rest) w e = cc
parameters-inv Γ (arg (sexpr ss d) rest) w e = cc

new-inv : (Γ : Names) (x : Text) → check_new Γ x ≡ accept → in_scope x Γ ≡ false
unfolding check_new
new-inv Γ x e = elim (Bool-cases (in_scope x Γ)) [
  | inl y ↦ absurd (let h : check_new Γ x ≡ accept = e in cc (rw y at h))
  | inr n ↦ n
]

datum-inv : (v : Node) → check_datum v ≡ accept → has_lone_dot v ≡ false
unfolding check_datum
datum-inv v e = elim (Bool-cases (has_lone_dot v)) [
  | inl y ↦ absurd (let h : check_datum v ≡ accept = e in cc (rw y at h))
  | inr n ↦ n
]

begin-inv :
    {Γ : Names} {x : Text} {rest : Nodes} (d : Bool)
    → handler_of x ≡ some begin_key
    → check_end d ≡ accept
    → LegalAll Γ rest
    → Legal Γ (sexpr (arg (symbol x) rest) d)
unfolding check_end
begin-inv true e h l = cc
begin-inv false e h l = begin_form e l

-- the case of a form whose head is a name, over what is known of its parts
form-inv :
    {Γ : Names} {x : Text} {rest : Nodes} (d : Bool) (k : Option Keyword)
    → handler_of x ≡ k
    → (check_all Γ rest ≡ accept → LegalAll Γ rest)
    → (handler_of x ≡ some define_key
        → check_define Γ rest ≡ accept
        → Legal Γ (sexpr (arg (symbol x) rest) d))
    → (handler_of x ≡ some lambda_key
        → check_lambda Γ rest ≡ accept
        → Legal Γ (sexpr (arg (symbol x) rest) d))
    → (handler_of x ≡ some quote_key
        → check_quote rest ≡ accept
        → Legal Γ (sexpr (arg (symbol x) rest) d))
    → (handler_of x ≡ some if_key
        → check_if Γ rest ≡ accept
        → Legal Γ (sexpr (arg (symbol x) rest) d))
    → by_keyword k
        (check_all Γ rest)
        (check_all Γ rest also check_end d)
        (check_define Γ rest)
        (check_lambda Γ rest)
        (check_quote rest)
        (check_if Γ rest)
      ≡ accept
    → Legal Γ (sexpr (arg (symbol x) rest) d)
form-inv d none e all def lam quo cond h = call_named d e (all h)
form-inv d (some begin_key) e all def lam quo cond h =
    let (a, b) = also-inv _ _ h in begin-inv d e b (all a)
form-inv d (some define_key) e all def lam quo cond h = def e h
form-inv d (some lambda_key) e all def lam quo cond h = lam e h
form-inv d (some quote_key) e all def lam quo cond h = quo e h
form-inv d (some if_key) e all def lam quo cond h = cond e h

mutual
  unfolding check

  node-inv : (Γ : Names) (v : Node) → check Γ v ≡ accept → Legal Γ v
  node-inv Γ (number val) e = a_number val
  node-inv Γ (boolean b) e = a_boolean b
  node-inv Γ (string s) e = a_string s
  node-inv Γ (symbol x) e = a_name x
  node-inv Γ (sexpr none_left d) e = nothing d
  node-inv Γ (sexpr (arg (symbol x) rest) d) e =
      form-inv d (handler_of x) refl (all-inv Γ rest) (define-inv Γ x rest d)
        (lambda-inv Γ x rest d) (quote-inv Γ x rest d) (if-inv Γ x rest d) e
  node-inv Γ (sexpr (arg (sexpr as' d') rest) d) e =
      let (a, b) = also-inv _ _ e in
      call_computed d (node-inv Γ (sexpr as' d') a) (all-inv Γ rest b)
  node-inv Γ (sexpr (arg (number n) rest) d) e = cc
  node-inv Γ (sexpr (arg (boolean b) rest) d) e = cc
  node-inv Γ (sexpr (arg (string s) rest) d) e = cc

  all-inv : (Γ : Names) (as' : Nodes) → check_all Γ as' ≡ accept → LegalAll Γ as'
  all-inv Γ none_left e = no_more
  all-inv Γ (arg a rest) e =
      let (h, k) = also-inv _ _ e in and_more (node-inv Γ a h) (all-inv Γ rest k)

  define-inv :
      (Γ : Names) (x : Text) (rest : Nodes) (d : Bool)
      → handler_of x ≡ some define_key
      → check_define Γ rest ≡ accept
      → Legal Γ (sexpr (arg (symbol x) rest) d)
  define-inv Γ x none_left d e h = cc
  define-inv Γ x (arg a none_left) d e h = cc
  define-inv Γ x (arg (symbol y) (arg v none_left)) d e h =
      let (a, b) = also-inv _ _ h in define_value d e (new-inv Γ y a) (node-inv Γ v b)
  define-inv Γ x (arg (symbol y) (arg v (arg w ws))) d e h = cc
  define-inv Γ x (arg (sexpr none_left d') (arg v vs)) d e h = cc
  define-inv Γ x (arg (sexpr (arg (symbol y) formals) d') (arg v vs)) d e h =
      let (a, b) = also-inv _ _ h in
      let (Δ, p, k) = parameters-inv Γ formals _ b in
      let (l, m) = also-inv _ _ k in
      define_function d d' e (new-inv Γ y a) p (node-inv Δ v l) (all-inv Δ vs m)
  define-inv Γ x (arg (sexpr (arg (number n) formals) d') (arg v vs)) d e h = cc
  define-inv Γ x (arg (sexpr (arg (boolean b) formals) d') (arg v vs)) d e h = cc
  define-inv Γ x (arg (sexpr (arg (string s) formals) d') (arg v vs)) d e h = cc
  define-inv Γ x (arg (sexpr (arg (sexpr ss c) formals) d') (arg v vs)) d e h = cc
  define-inv Γ x (arg (number n) (arg v vs)) d e h = cc
  define-inv Γ x (arg (boolean b) (arg v vs)) d e h = cc
  define-inv Γ x (arg (string s) (arg v vs)) d e h = cc

  lambda-inv :
      (Γ : Names) (x : Text) (rest : Nodes) (d : Bool)
      → handler_of x ≡ some lambda_key
      → check_lambda Γ rest ≡ accept
      → Legal Γ (sexpr (arg (symbol x) rest) d)
  lambda-inv Γ x none_left d e h = cc
  lambda-inv Γ x (arg a none_left) d e h = cc
  lambda-inv Γ x (arg (sexpr formals d') (arg v vs)) d e h =
      let (Δ, p, k) = parameters-inv Γ formals _ h in
      let (l, m) = also-inv _ _ k in lambda_form d d' e p (node-inv Δ v l) (all-inv Δ vs m)
  lambda-inv Γ x (arg (number n) (arg v vs)) d e h = cc
  lambda-inv Γ x (arg (boolean b) (arg v vs)) d e h = cc
  lambda-inv Γ x (arg (string s) (arg v vs)) d e h = cc
  lambda-inv Γ x (arg (symbol s) (arg v vs)) d e h = cc

  quote-inv :
      (Γ : Names) (x : Text) (rest : Nodes) (d : Bool)
      → handler_of x ≡ some quote_key
      → check_quote rest ≡ accept
      → Legal Γ (sexpr (arg (symbol x) rest) d)
  quote-inv Γ x none_left d e h = cc
  quote-inv Γ x (arg v none_left) d e h = quote_form d e (datum-inv v h)
  quote-inv Γ x (arg v (arg w ws)) d e h = cc

  if-inv :
      (Γ : Names) (x : Text) (rest : Nodes) (d : Bool)
      → handler_of x ≡ some if_key
      → check_if Γ rest ≡ accept
      → Legal Γ (sexpr (arg (symbol x) rest) d)
  if-inv Γ x none_left d e h = cc
  if-inv Γ x (arg t none_left) d e h = cc
  if-inv Γ x (arg t (arg a none_left)) d e h =
      let (k, l) = also-inv _ _ h in if_then d e (node-inv Γ t k) (node-inv Γ a l)
  if-inv Γ x (arg t (arg a (arg b none_left))) d e h =
      let (k, l) = also-inv _ _ h in
      let (m, n) = also-inv _ _ l in if_else d e (node-inv Γ t k) (node-inv Γ a m) (node-inv Γ b n)
  if-inv Γ x (arg t (arg a (arg b (arg c cs)))) d e h = cc

pub check-Legal_iff : (Γ : Names) (v : Node) → (check Γ v ≡ accept) ↔ Legal Γ v
check-Legal_iff Γ v = (node-inv Γ v, Legal-check)

passed :
    {A : Type 0} {Q : A → Session → Type 0} {v : Verdict} {o : Outcome (A × Session)}
    → Judged Q v o
    → v ≡ accept
    → (a : A) × (s : Session) × (o ≡ ok (a, s))
passed (passes a {s} q) e = (a, s, refl)
passed (raises x) e = cc
passed (breaks x) e = cc

passing :
    {A : Type 0} {Q : A → Session → Type 0} {v : Verdict} {o : Outcome (A × Session)} {a : A}
    {s : Session}
    → Judged Q v o
    → o ≡ ok (a, s)
    → v ≡ accept
passing (passes a q) e = refl
passing (raises x) e = cc
passing (breaks x) e = cc

-- From scopes in which the names Γ are bound, codeGenEval returns a value exactly if the expression is
-- legal with these names in scope.
pub code_gen_eval-returns_iff :
    (v : Node) (Γ : Names) (Γs : List Names) (f : ℕ) (s : Session)
    → Scoped Γ Γs f s
    → ((x : ℕ) × (s' : Session) × (code_gen_eval v s ≡ ok (x, s'))) ↔ Legal Γ v
code_gen_eval-returns_iff v Γ Γs f s h =
    let j = code_gen_eval-Judged v Γ Γs f s h in
    (λ (x, s', e). node-inv Γ v (passing j e), λ l. passed j (Legal-check l))
