-- ===== src/Parser.antt =====
-- src/parser.cc and src/include/parser.hh: tokens to nodes, over any source of tokens.
pub mod Grammar
pub mod Sources
use llscheme.Base.{
  ℕ, zero, suc, ◌-◌, ◌++◌, List, [], ◌∷◌, same_text, Text, codes, length, ltb, ◌==◌, if◌then◌else◌,
}
use llscheme.Base.Outcome.{
  ok, Routine, ◌>>=◌, ◌>>◌, pure, throw, undefined, looping, and_then, expecting, unexpected_period,
  unexpected_rparen, unexpected_token, missing_return, out_of_bounds,
}
use llscheme.Token.{
  Token, TokenType, same_type, get_token_name, eof_type, lparen, symbol, number, rparen, period,
  string, bool, quote,
}
use llscheme.Ast.{Node, SExpr, new_sexpr, add_argument, tag_dotted, node_of}

-- `Lexer` as the parser sees it.
pub record TokenSource : Type 1 where
  pub State : Type 0
  pub next_token : Routine State Token

-- `BooleanASTNode(text)` compares its text with "#t".
unfoldable pub boolean_of : Text → Node
boolean_of txt = Node.boolean (same_text txt (codes "#t"))

-- `Parser`: the tokens that have been asked for ahead of time, and the lexer.
pub record Parser (S : Type 0) : Type 0 where
  pub lookahead : List Token
  pub input : S

-- The open expressions, the innermost first.
abbrev pub Stack : Type 0
Stack = List SExpr

module _ (src : TokenSource) where
  open src use {State}

  abbrev pub Parse : Type 0 → Type 0
  Parse A = Routine (Parser State) A

  -- `input->nextToken()`
  unfoldable pub fetch : Parse Token
  fetch p = and_then (src.next_token p.input) λ (t, i). ok (t, record p { input = i })

  unfoldable pub push_back : Token → Parse (Unit {0})
  push_back t p = ok (tt, record p { lookahead = p.lookahead ++ t ∷ [] })

  unfoldable pub ahead : Parse (List Token)
  ahead p = ok (p.lookahead, p)

  unfoldable pub set_ahead : List Token → Parse (Unit {0})
  set_ahead ts p = ok (tt, record p { lookahead = ts })

  unfoldable pub fill_token : ℕ → Parse (Unit {0})
  unfolding fetch push_back
  fill_token zero = pure tt
  fill_token (suc count) = do t ← fetch; push_back t; fill_token count

  unfoldable pub pop_front : List Token → Parse (Unit {0})
  unfolding set_ahead
  pop_front [] = undefined out_of_bounds
  pop_front (t ∷ ts) = set_ahead ts

  unfoldable pub consume : Parse (Unit {0})
  unfolding fill_token ahead pop_front
  consume = do
    ts ← ahead
    (if length ts == 0 then fill_token 1 else pure tt)
    ts' ← ahead
    pop_front ts'

  unfoldable pub element : List Token → ℕ → Parse Token
  element [] i = undefined out_of_bounds
  element (t ∷ ts) zero = pure t
  element (t ∷ ts) (suc i) = element ts i

  -- `peekToken(idx)`, for an index from 1 on
  unfoldable pub peek_token : ℕ → Parse Token
  unfolding fill_token ahead element
  peek_token idx = do
    ts ← ahead
    (if ltb (length ts) idx then fill_token (idx - length ts) else pure tt)
    ts' ← ahead
    element ts' (idx - 1)

  unfoldable pub match : TokenType → Parse (Unit {0})
  unfolding consume peek_token
  match ty = do
    t ← peek_token 1
    if same_type t.type ty
        then consume
        else do u ← peek_token 1; throw (expecting (get_token_name ty) u.text)

  -- the end of the macro CONSUME_TOK: a node with no expression around it is the result
  unfoldable pub attach : (Stack → Parse Node) → Stack → Node → Parse Node
  attach loop [] a = pure a
  attach loop (e ∷ stk) a = loop (add_argument e a ∷ stk)

  -- the macro REDUCE_STK
  unfoldable pub reduce_stk : (Stack → Parse Node) → Stack → Parse Node
  reduce_stk loop [] = undefined out_of_bounds
  reduce_stk loop (e ∷ []) = pure (node_of e)
  reduce_stk loop (e ∷ d ∷ stk) = loop (add_argument d (node_of e) ∷ stk)

  unfoldable pub on_period : (Stack → Parse Node) → Stack → Parse Node
  unfolding match reduce_stk
  on_period loop [] = throw unexpected_period
  on_period loop (e ∷ stk) = do
    a ← loop []
    match rparen
    reduce_stk loop (add_argument (tag_dotted e) a ∷ stk)

  unfoldable pub on_rparen : (Stack → Parse Node) → Stack → Parse Node
  unfolding reduce_stk
  on_rparen loop [] = throw unexpected_rparen
  on_rparen loop (e ∷ stk) = reduce_stk loop (e ∷ stk)

  -- the `switch`; `loop` goes on in the loop, and a nested call of `parseSExp` is `loop []`
  unfoldable pub on_token : (Stack → Parse Node) → Stack → TokenType → Text → Parse Node
  unfolding consume attach on_period on_rparen reduce_stk
  on_token loop stk bool txt = do consume; attach loop stk (boolean_of txt)
  on_token loop stk string txt = do consume; attach loop stk (Node.string txt)
  on_token loop stk number txt = do consume; attach loop stk (Node.number txt)
  on_token loop stk symbol txt = do consume; attach loop stk (Node.symbol txt)
  on_token loop stk quote txt = do
    consume
    a ← loop []
    reduce_stk loop (add_argument (add_argument new_sexpr (Node.symbol (codes "quote"))) a ∷ stk)
  on_token loop stk lparen txt = do consume; loop (new_sexpr ∷ stk)
  on_token loop stk period txt = do consume; on_period loop stk
  on_token loop stk rparen txt = do consume; on_rparen loop stk
  on_token loop stk eof_type txt = throw (unexpected_token txt)

  -- The loop of `parseSExp`, with the stack that it has reached. At the end of the input the
  -- function runs off its end without a `return`.
  unfoldable pub parse_loop : ℕ → Stack → Parse Node
  unfolding peek_token on_token
  parse_loop zero stk = looping
  parse_loop (suc f) stk = do
    t ← peek_token 1
    if same_type t.type eof_type
        then undefined missing_return
        else do u ← peek_token 1; on_token (parse_loop f) stk t.type u.text

  unfoldable pub parse_sexp : ℕ → Parse Node
  unfolding parse_loop
  parse_sexp f = parse_loop f []
