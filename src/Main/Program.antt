-- ===== src/Main/Program.antt =====
-- What `main` reads: over a list of tokens, and from one source as from another.
use llscheme.Base.{
  ℕ, zero, suc, ◌+◌, ◌<◌, ◌≡◌, refl, ◌∙◌, Bool, true, false, [], ◌∷◌, ◌++◌, arith, length,
  length-append, codes, if◌then◌else◌,
}
use llscheme.Base.Outcome.{Outcome, ok}
use llscheme.Base.Simulation
use llscheme.Base.Simulation.{Simulates, simulation}
use llscheme.Token.{Token, same_type, eof_type}
use llscheme.Ast.{Node, Nodes, none_left, arg, sexpr, symbol, SExpr, node_of, add_argument}
use llscheme.Parser.{TokenSource, Parser, parse_loop, parse_sexp}
use llscheme.Parser.Sources.{Same, peek_token-Simulates, parse_sexp-Simulates}
use llscheme.Parser.Grammar.{
  Tokens, tokens, end_token, ready, Spells, a_number, SpellsAll, nothing, following,
}
use llscheme.Parser.Grammar.Complete.{
  append_nodes, append_nodes-nil, append_nodes-snoc, parse_sexp-Spells,
}
use llscheme.Main.{read_all, create_display_sexp}

module _ (a b : TokenSource) (R : a.State → b.State → Type 0)
    (step : Simulates R a.next_token b.next_token) (fuel : ℕ) (p : Bool) where
  pub read_all-Simulates :
      (n : ℕ) (ast : SExpr)
      → Simulates (Same a b R step) (read_all a fuel p n ast) (read_all b fuel p n ast)
  unfolding read_all
  read_all-Simulates zero ast = search simulation
  read_all-Simulates (suc n) ast =
      Simulation.bind-Simulates (peek_token-Simulates a b R step 1) λ t.
        Simulation.if-Simulates (same_type t.type eof_type)
          (Simulation.pure-Simulates (node_of ast))
          (Simulation.bind-Simulates (parse_sexp-Simulates a b R step fuel)
            λ v. read_all-Simulates n _)

-- every node as the argument of a call of `display`
pub displayed : Nodes → Nodes
displayed none_left = none_left
displayed (arg v vs) =
    arg (sexpr (arg (symbol (codes "display")) (arg v none_left)) false) (displayed vs)

-- Asking for a token first changes nothing for the parser.
parse_sexp-peeked :
    (f : ℕ) (t : Token) (ts : Tokens)
    → parse_sexp tokens (suc f) (record { lookahead = t ∷ []; input = ts })
      ≡ parse_sexp tokens (suc f) (ready (t ∷ ts))
unfolding parse_sexp parse_loop
parse_sexp-peeked f t ts = refl

abbrev pub ended : Parser Tokens
ended = record { lookahead = end_token ∷ []; input = [] }

unfoldable pub size : Nodes → ℕ
size none_left = 0
size (arg v vs) = suc (size vs)

length-tokens : (ts us : Tokens) → length (ts ++ us) ≡ length ts + length us
length-tokens = length-append

-- One round of the loop.
read_all-Spells :
    (p : Bool) {v : Node} {ts : Tokens}
    → Spells v ts
    → (us : Tokens) (n f : ℕ) (ast : SExpr) → length ts < suc f
    → read_all tokens (suc f) p (suc n) ast (ready (ts ++ us))
      ≡ read_all tokens
          (suc f)
          p
          n
          (add_argument ast (if p then node_of (create_display_sexp v) else v))
          (ready us)
unfolding read_all
read_all-Spells p (a_number txt) us n f ast l =
    rw (parse_sexp-peeked f _ _, parse_sexp-Spells (a_number txt) us (suc f) l)
read_all-Spells p s us n f ast l = rw (parse_sexp-peeked f _ _, parse_sexp-Spells s us (suc f) l)

abbrev pub traced : Bool → Nodes → Nodes
traced p vs = if p then displayed vs else vs

append_nodes-traced :
    (p : Bool) (ast : SExpr) (v : Node) (vs : Nodes)
    → append_nodes
        (add_argument ast (if p then node_of (create_display_sexp v) else v)).args
        (traced p vs)
      ≡ append_nodes ast.args (traced p (arg v vs))
unfolding add_argument create_display_sexp displayed
append_nodes-traced true ast v vs = append_nodes-snoc ast.args _ (displayed vs)
append_nodes-traced false ast v vs = append_nodes-snoc ast.args v vs

-- Tokens that spell a sequence of expressions make the loop of main add them all, in order, to the
-- program, each in a call of display under -p, and stop at the end, given rounds above the size of the
-- expressions and fuel above the number of tokens.
pub read_all-SpellsAll :
    (p : Bool) {vs : Nodes} {ts : Tokens}
    → SpellsAll vs ts
    → (n f : ℕ) (ast : SExpr) → size vs < n
    → length ts < f
    → read_all tokens f p n ast (ready ts)
      ≡ ok (sexpr (append_nodes ast.args (traced p vs)) ast.is_dotted, ended)
read_all-SpellsAll p ss zero f ast l l' = absurd (omega arith)
read_all-SpellsAll p ss (suc n) zero ast l l' = absurd (omega arith)
read_all-SpellsAll true nothing (suc n) (suc f) ast l l' =
    unfold read_all displayed in rw (append_nodes-nil ast.args)
read_all-SpellsAll false nothing (suc n) (suc f) ast l l' =
    unfold read_all in rw (append_nodes-nil ast.args)
read_all-SpellsAll p (following {v} {vs} {ts} {us} s ss) (suc n) (suc f) ast l l' =
    read_all-Spells p s us n f ast (omega (arith, length-tokens ts us))
    ∙ (read_all-SpellsAll p {vs = vs} {ts = us} ss n (suc f) _ (unfold size in omega arith)
          (omega (arith, length-tokens ts us))
        ∙ added)
  where
    added :
        ◌≡◌ {A = Outcome (Node × Parser Tokens)}
          (ok (
            sexpr
                (append_nodes
                  (add_argument ast (if p then node_of (create_display_sexp v) else v)).args
                  (traced p vs))
                (add_argument ast (if p then node_of (create_display_sexp v) else v)).is_dotted,
            ended,
          ))
          (ok (sexpr (append_nodes ast.args (traced p (arg v vs))) ast.is_dotted, ended))
    added = rw (append_nodes-traced p ast v vs) (unfold add_argument in refl)
