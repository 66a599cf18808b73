-- ===== src/Parser/Grammar/Complete.antt =====
-- The parser on the spellings of the grammar.
use llscheme.Base.{
  ℕ, zero, suc, ◌+◌, ◌<◌, ◌≤◌, ◌≡◌, refl, ap, [], ◌∷◌, ◌++◌, append_assoc, append-nil, arith, Text,
  length, length-append,
}
use llscheme.Base.Outcome.{Outcome, ok, fault, missing_return}
use llscheme.Token.{token, lparen, rparen, period}
use llscheme.Ast.{
  Node, Nodes, node_of, none_left, arg, snoc, SExpr, new_sexpr, add_argument, tag_dotted,
}
use llscheme.Parser.{Parser, Parse, Stack, attach, reduce_stk, parse_loop, parse_sexp, boolean_of}
use llscheme.Parser.Grammar.{
  Tokens, tokens, ready, Spells, a_number, a_symbol, a_string, a_boolean, quoted, list, dotted,
  SpellsAll, nothing, following,
}

unfoldable pub append_nodes : Nodes → Nodes → Nodes
append_nodes none_left vs = vs
append_nodes (arg a as') vs = arg a (append_nodes as' vs)

pub append_nodes-snoc :
    (as' : Nodes) (v : Node) (vs : Nodes)
    → append_nodes (snoc as' v) vs ≡ append_nodes as' (arg v vs)
unfolding append_nodes
append_nodes-snoc none_left v vs = refl
append_nodes-snoc (arg a as') v vs = ap (arg a) (append_nodes-snoc as' v vs)

pub append_nodes-nil : (as' : Nodes) → append_nodes as' none_left ≡ as'
unfolding append_nodes
append_nodes-nil none_left = refl
append_nodes-nil (arg a as') = ap (arg a) (append_nodes-nil as')

append_args : SExpr → Nodes → SExpr
append_args e vs = record e { args = append_nodes e.args vs }

-- Both ways to close an expression hand its node to what is around it.
pub reduce_stk-attach :
    (loop : Stack → Parse tokens Node) (e : SExpr) (stk : Stack)
    → reduce_stk tokens loop (e ∷ stk) ≡ attach tokens loop stk (node_of e)
unfolding reduce_stk attach
reduce_stk-attach loop e [] = refl
reduce_stk-attach loop e (d ∷ stk) = refl

length-tokens : (ts us : Tokens) → length (ts ++ us) ≡ length ts + length us
length-tokens = length-append

ruleset lengths = (arith, length-tokens)

-- Fuel above a bound is a successor.
one_round :
    {b : ℕ} (Goal : ℕ → Type 0)
    → ((g : ℕ) → b ≤ g → Goal (suc g))
    → (fuel : ℕ) → b < fuel
    → Goal fuel
one_round Goal h zero l = absurd (omega arith)
one_round Goal h (suc g) l = h g (omega arith)

-- With more fuel than `b` and the length of what it reads, the loop reads the node, and goes on as it
-- does behind it.
abbrev ReadsNode : Node → Tokens → Type 0
ReadsNode v ts =
    (x : Outcome (Node × Parser Tokens)) (b : ℕ) (rest : Tokens) (stk : Stack)
    → ((f' : ℕ) → b < f' → attach tokens (parse_loop tokens f') stk v (ready rest) ≡ x)
    → (f : ℕ) → length ts + b < f
    → parse_loop tokens f stk (ready (ts ++ rest)) ≡ x

abbrev ReadsArgs : Nodes → Tokens → Type 0
ReadsArgs vs ts =
    (x : Outcome (Node × Parser Tokens)) (b : ℕ) (rest : Tokens) (e : SExpr) (stk : Stack)
    → ((f' : ℕ) → b < f' → parse_loop tokens f' (append_args e vs ∷ stk) (ready rest) ≡ x)
    → (f : ℕ) → length ts + b < f
    → parse_loop tokens f (e ∷ stk) (ready (ts ++ rest)) ≡ x

nested :
    (v : Node) (rest : Tokens) (f : ℕ)
    → 0 < f
    → attach tokens (parse_loop tokens f) [] v (ready rest) ≡ ok (v, ready rest)
unfolding attach
nested v rest f l = refl

closing :
    (x : Outcome (Node × Parser Tokens)) (b : ℕ) (c : Text) (rest : Tokens) (e : SExpr)
    (stk : Stack)
    → ((f' : ℕ) → b < f' → attach tokens (parse_loop tokens f') stk (node_of e) (ready rest) ≡ x)
    → (f : ℕ) → suc b < f
    → parse_loop tokens f (e ∷ stk) (ready (token rparen c ∷ rest)) ≡ x
unfolding parse_loop
closing x b c rest e stk h =
    one_round _ λ f l. rw (reduce_stk-attach (parse_loop tokens f) e stk) (h f (omega arith))

mutual
  unfolding parse_loop attach add_argument tag_dotted append_args append_nodes boolean_of

  parse_loop-Spells : {v : Node} {ts : Tokens} → Spells v ts → ReadsNode v ts
  parse_loop-Spells (a_number txt) x b rest stk h = one_round _ λ f l. h f (omega arith)
  parse_loop-Spells (a_symbol txt) x b rest stk h = one_round _ λ f l. h f (omega arith)
  parse_loop-Spells (a_string txt) x b rest stk h = one_round _ λ f l. h f (omega arith)
  parse_loop-Spells (a_boolean txt) x b rest stk h = one_round _ λ f l. h f (omega arith)
  parse_loop-Spells (quoted txt {v} s) x b rest stk h = one_round _ λ f l.
      rw (parse_loop-Spells s (ok (v, ready rest)) 0 rest [] (nested v (rest)) f (omega arith))
        (rw (reduce_stk-attach (parse_loop tokens f) _ stk) (h f (omega arith)))
  parse_loop-Spells (list o c {ts} s) x b rest stk h = one_round _ λ f l.
      rw (append_assoc ts (token rparen c ∷ []) rest) (
        parse_loop-SpellsAll s x (suc b) (token rparen c ∷ rest) new_sexpr stk
          (closing x b c rest _ stk h) f (omega lengths))
  parse_loop-Spells (dotted o d c {vs} {v} {ts} {us} s t) x b rest stk h = one_round _ λ f l.
      rw
        (
          append_assoc ts (token period d ∷ (us ++ token rparen c ∷ [])) rest,
          append_assoc us (token rparen c ∷ []) rest,
        )
        (parse_loop-SpellsAll s x (b + suc (suc (length us)))
          (token period d ∷ (us ++ token rparen c ∷ rest)) new_sexpr stk
          (one_round _ λ f' l'.
            rw
              (parse_loop-Spells t (ok (v, ready (token rparen c ∷ rest))) 0 (token rparen c ∷ rest)
                [] (nested v _) f' (omega arith))
              (rw (reduce_stk-attach (parse_loop tokens f') _ stk) (h f' (omega arith))))
          f (omega lengths))

  parse_loop-SpellsAll : {vs : Nodes} {ts : Tokens} → SpellsAll vs ts → ReadsArgs vs ts
  parse_loop-SpellsAll nothing x b rest e stk h f l =
      rw (← append_nodes-nil e.args) (h f (omega arith))
  parse_loop-SpellsAll (following {v} {vs} {ts} {us} s ss) x b rest e stk h f l =
      rw (append_assoc ts us rest) (
        parse_loop-Spells s x (length us + b) (us ++ rest) (e ∷ stk)
          (parse_loop-SpellsAll ss x b rest (add_argument e v) stk
            (λ f' l'. rw (append_nodes-snoc e.args v vs) (h f' l')))
          f (omega lengths))

-- With more fuel than there are tokens in the spelling, `parseSExp` returns the node and stops behind
-- it.
pub parse_sexp-Spells :
    {v : Node} {ts : Tokens}
    → Spells v ts
    → (rest : Tokens) (f : ℕ) → length ts < f
    → parse_sexp tokens f (ready (ts ++ rest)) ≡ ok (v, ready rest)
unfolding parse_sexp
parse_sexp-Spells {v} s rest f l =
    parse_loop-Spells s (ok (v, ready rest)) 0 rest [] (nested v rest) f (omega arith)

-- On an opening parenthesis, tokens that spell a sequence of expressions, and nothing more, parseSExp runs
-- off its end without a return, given more fuel than two more than the tokens behind the parenthesis.
pub parse_sexp-unclosed :
    (o : Text) {vs : Nodes} {ts : Tokens}
    → SpellsAll vs ts
    → (f : ℕ) → suc (suc (length ts)) < f
    → parse_sexp tokens f (ready (token lparen o ∷ ts)) ≡ fault missing_return
unfolding parse_sexp parse_loop
parse_sexp-unclosed o {ts} s = one_round _ λ f l. rw (← append-nil ts) (
    parse_loop-SpellsAll s (fault missing_return) 0 [] new_sexpr [] (one_round _ λ f' l'. refl) f
      (omega arith))
