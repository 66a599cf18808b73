-- ===== src/Codegen/Eval/Legal.antt =====
-- The expressions that src/codegen.cc takes, as a relation between the names in scope and an
-- expression.
use llscheme.Base.{◌≡◌, refl, Bool, false, none, some, ◌∷◌, Text}
use llscheme.Base.Outcome.{ok}
use llscheme.Ast.{Node, Nodes, number, boolean, symbol, string, sexpr, none_left, arg}
use llscheme.Codegen.Forms.{begin_key, define_key, lambda_key, quote_key, if_key, handler_of}
use llscheme.Codegen.Eval.Check.{
  Names, in_scope, accept, has_lone_dot, check_datum, check_new, check_formals, check_end, check,
  check_all,
}

-- a list of names, and the names in scope behind it
pub data Formals : Names → Nodes → Names → Type 0 where
  no_formals : {Γ : Names} → Formals Γ none_left Γ
  formal :
      {Γ Δ : Names} {x : Text} {rest : Nodes}
      → Formals (x ∷ Γ) rest Δ
      → Formals Γ (arg (symbol x) rest) Δ

mutual
  pub data Legal : Names → Node → Type 0 where
    a_number : {Γ : Names} (val : Text) → Legal Γ (number val)
    a_boolean : {Γ : Names} (b : Bool) → Legal Γ (boolean b)
    a_string : {Γ : Names} (s : Text) → Legal Γ (string s)
    a_name : {Γ : Names} (x : Text) → Legal Γ (symbol x)
    nothing : {Γ : Names} (d : Bool) → Legal Γ (sexpr none_left d)
    call_named :
        {Γ : Names} {x : Text} {rest : Nodes} (d : Bool)
        → handler_of x ≡ none
        → LegalAll Γ rest
        → Legal Γ (sexpr (arg (symbol x) rest) d)
    call_computed :
        {Γ : Names} {as' rest : Nodes} {d' : Bool} (d : Bool)
        → Legal Γ (sexpr as' d')
        → LegalAll Γ rest
        → Legal Γ (sexpr (arg (sexpr as' d') rest) d)
    begin_form :
        {Γ : Names} {x : Text} {rest : Nodes}
        → handler_of x ≡ some begin_key
        → LegalAll Γ rest
        → Legal Γ (sexpr (arg (symbol x) rest) false)
    define_value :
        {Γ : Names} {x y : Text} {v : Node} (d : Bool)
        → handler_of x ≡ some define_key
        → in_scope y Γ ≡ false
        → Legal Γ v
        → Legal Γ (sexpr (arg (symbol x) (arg (symbol y) (arg v none_left))) d)
    define_function :
        {Γ Δ : Names} {x y : Text} {formals vs : Nodes} {v : Node} (d d' : Bool)
        → handler_of x ≡ some define_key
        → in_scope y Γ ≡ false
        → Formals Γ formals Δ
        → Legal Δ v
        → LegalAll Δ vs
        → Legal Γ (sexpr (arg (symbol x) (arg (sexpr (arg (symbol y) formals) d') (arg v vs))) d)
    lambda_form :
        {Γ Δ : Names} {x : Text} {formals vs : Nodes} {v : Node} (d d' : Bool)
        → handler_of x ≡ some lambda_key
        → Formals Γ formals Δ
        → Legal Δ v
        → LegalAll Δ vs
        → Legal Γ (sexpr (arg (symbol x) (arg (sexpr formals d') (arg v vs))) d)
    quote_form :
        {Γ : Names} {x : Text} {v : Node} (d : Bool)
        → handler_of x ≡ some quote_key
        → has_lone_dot v ≡ false
        → Legal Γ (sexpr (arg (symbol x) (arg v none_left)) d)
    if_then :
        {Γ : Names} {x : Text} {t a : Node} (d : Bool)
        → handler_of x ≡ some if_key
        → Legal Γ t
        → Legal Γ a
        → Legal Γ (sexpr (arg (symbol x) (arg t (arg a none_left))) d)
    if_else :
        {Γ : Names} {x : Text} {t a b : Node} (d : Bool)
        → handler_of x ≡ some if_key
        → Legal Γ t
        → Legal Γ a
        → Legal Γ b
        → Legal Γ (sexpr (arg (symbol x) (arg t (arg a (arg b none_left)))) d)

  pub data LegalAll : Names → Nodes → Type 0 where
    no_more : {Γ : Names} → LegalAll Γ none_left
    and_more :
        {Γ : Names} {a : Node} {rest : Nodes}
        → Legal Γ a
        → LegalAll Γ rest
        → LegalAll Γ (arg a rest)

Formals-check :
    {Γ Δ : Names} {formals : Nodes} → Formals Γ formals Δ → check_formals Γ formals ≡ ok Δ
unfolding check_formals
Formals-check no_formals = refl
Formals-check (formal p) = Formals-check p

mutual
  unfolding check check_new check_datum check_end

  pub Legal-check : {Γ : Names} {v : Node} → Legal Γ v → check Γ v ≡ accept
  Legal-check (a_number val) = refl
  Legal-check (a_boolean b) = refl
  Legal-check (a_string s) = refl
  Legal-check (a_name x) = refl
  Legal-check (nothing d) = refl
  Legal-check (call_named d e l) = rw e (LegalAll-check l)
  Legal-check (call_computed d l m) = rw (Legal-check l) (LegalAll-check m)
  Legal-check (begin_form e l) = rw (e, LegalAll-check l) refl
  Legal-check (define_value d e n l) = rw (e, n) (Legal-check l)
  Legal-check (define_function d d' e n p l m) =
      rw (e, n, Formals-check p, Legal-check l) (LegalAll-check m)
  Legal-check (lambda_form d d' e p l m) = rw (e, Formals-check p, Legal-check l) (LegalAll-check m)
  Legal-check (quote_form d e n) = rw (e, n) refl
  Legal-check (if_then d e l m) = rw (e, Legal-check l) (Legal-check m)
  Legal-check (if_else d e l m n) = rw (e, Legal-check l, Legal-check m) (Legal-check n)

  LegalAll-check : {Γ : Names} {as' : Nodes} → LegalAll Γ as' → check_all Γ as' ≡ accept
  LegalAll-check no_more = refl
  LegalAll-check (and_more l m) = rw (Legal-check l) (LegalAll-check m)
