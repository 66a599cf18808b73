-- ===== src/Parser/Sources.antt =====
-- The parser on two sources of tokens that run in step.
use llscheme.Base.{ℕ, zero, suc, List, [], ◌∷◌, ◌++◌, Text}
use llscheme.Base.Outcome.{Outcome, ok, and_then}
use llscheme.Base.Simulation
use llscheme.Base.Simulation.{
  Related, Simulates, both_ok, both_throw, both_fault, both_diverge, simulation,
}
use llscheme.Token.{Token, TokenType, bool}
use llscheme.Ast.{Node}
use llscheme.Parser.{
  TokenSource, Parser, Stack, Parse, fetch, push_back, fill_token, ahead, set_ahead, pop_front,
  consume, element, peek_token, match, attach, reduce_stk, on_period, on_rparen, on_token,
  parse_loop, parse_sexp,
}

module _ (a b : TokenSource) (R : a.State → b.State → Type 0)
    (step : Simulates R a.next_token b.next_token) where
  -- the same tokens have been asked for ahead of time
  pub data Same : Parser a.State → Parser b.State → Type 0 where
    same :
        (ts : List Token) {i : a.State} {j : b.State}
        → R i j
        → Same (record { lookahead = ts; input = i }) (record { lookahead = ts; input = j })

  buffered :
      (ts : List Token) {x : Outcome (Token × a.State)} {y : Outcome (Token × b.State)}
      → Related R x y
      → Related Same
          (and_then x (λ (t, i). ok (t, record { lookahead = ts; input = i })))
          (and_then y (λ (t, j). ok (t, record { lookahead = ts; input = j })))
  buffered ts (both_ok t r) = both_ok t (same ts r)
  buffered ts (both_throw e) = both_throw e
  buffered ts (both_fault e) = both_fault e
  buffered ts both_diverge = both_diverge

  fetch-from :
      (p : Parser a.State) (q : Parser b.State) → Same p q → Related Same (fetch a p) (fetch b q)
  unfolding fetch
  fetch-from p q (same ts r) = buffered ts (step.from _ _ r)

  fetch-Simulates : Simulates Same (fetch a) (fetch b)
  fetch-Simulates = record { from = fetch-from }

  ahead-from :
      (p : Parser a.State) (q : Parser b.State) → Same p q → Related Same (ahead a p) (ahead b q)
  unfolding ahead
  ahead-from p q (same ts r) = both_ok ts (same ts r)

  ahead-Simulates : Simulates Same (ahead a) (ahead b)
  ahead-Simulates = record { from = ahead-from }

  push_back-from :
      (t : Token) (p : Parser a.State) (q : Parser b.State)
      → Same p q
      → Related Same (push_back a t p) (push_back b t q)
  unfolding push_back
  push_back-from t p q (same ts r) = both_ok tt (same (ts ++ t ∷ []) r)

  push_back-Simulates : (t : Token) → Simulates Same (push_back a t) (push_back b t)
  push_back-Simulates t = record { from = push_back-from t }

  set_ahead-from :
      (us : List Token) (p : Parser a.State) (q : Parser b.State)
      → Same p q
      → Related Same (set_ahead a us p) (set_ahead b us q)
  unfolding set_ahead
  set_ahead-from us p q (same ts r) = both_ok tt (same us r)

  set_ahead-Simulates : (us : List Token) → Simulates Same (set_ahead a us) (set_ahead b us)
  set_ahead-Simulates us = record { from = set_ahead-from us }

  ruleset buffering =
      (simulation, fetch-Simulates, ahead-Simulates, push_back-Simulates, set_ahead-Simulates)

  fill_token-Simulates : (n : ℕ) → Simulates Same (fill_token a n) (fill_token b n)
  unfolding fill_token
  fill_token-Simulates zero = search buffering
  fill_token-Simulates (suc n) =
      Simulation.bind-Simulates fetch-Simulates
        λ t. Simulation.bind-Simulates (push_back-Simulates t) λ _. fill_token-Simulates n

  pop_front-Simulates : (ts : List Token) → Simulates Same (pop_front a ts) (pop_front b ts)
  unfolding pop_front
  pop_front-Simulates [] = search buffering
  pop_front-Simulates (t ∷ ts) = search buffering

  element-Simulates : (ts : List Token) (n : ℕ) → Simulates Same (element a ts n) (element b ts n)
  unfolding element
  element-Simulates [] n = search buffering
  element-Simulates (t ∷ ts) zero = search buffering
  element-Simulates (t ∷ ts) (suc n) = element-Simulates ts n

  consume-Simulates : Simulates Same (consume a) (consume b)
  unfolding consume
  consume-Simulates = search (buffering, fill_token-Simulates, pop_front-Simulates) depth 9

  pub peek_token-Simulates : (n : ℕ) → Simulates Same (peek_token a n) (peek_token b n)
  unfolding peek_token
  peek_token-Simulates n = search (buffering, fill_token-Simulates, element-Simulates) depth 9

  match-Simulates : (ty : TokenType) → Simulates Same (match a ty) (match b ty)
  unfolding match
  match-Simulates ty = search (buffering, consume-Simulates, peek_token-Simulates) depth 9

  ruleset parsing = (simulation, consume-Simulates, peek_token-Simulates, match-Simulates)

  -- two loops that give the same, whatever is open
  abbrev Alike : (Stack → Parse a Node) → (Stack → Parse b Node) → Type 0
  Alike l m = (stk : Stack) → Simulates Same (l stk) (m stk)

  module _ (l : Stack → Parse a Node) (m : Stack → Parse b Node) (alike : Alike l m) where
    attach-Simulates :
        (stk : Stack) (v : Node) → Simulates Same (attach a l stk v) (attach b m stk v)
    unfolding attach
    attach-Simulates [] v = search parsing
    attach-Simulates (e ∷ stk) v = alike _

    reduce_stk-Simulates : (stk : Stack) → Simulates Same (reduce_stk a l stk) (reduce_stk b m stk)
    unfolding reduce_stk
    reduce_stk-Simulates [] = search parsing
    reduce_stk-Simulates (e ∷ []) = search parsing
    reduce_stk-Simulates (e ∷ d ∷ stk) = alike _

    on_period-Simulates : (stk : Stack) → Simulates Same (on_period a l stk) (on_period b m stk)
    unfolding on_period
    on_period-Simulates [] = search parsing
    on_period-Simulates (e ∷ stk) = search (parsing, alike, reduce_stk-Simulates) depth 8

    on_rparen-Simulates : (stk : Stack) → Simulates Same (on_rparen a l stk) (on_rparen b m stk)
    unfolding on_rparen
    on_rparen-Simulates [] = search parsing
    on_rparen-Simulates (e ∷ stk) = reduce_stk-Simulates (e ∷ stk)

    ruleset cases =
        (parsing, attach-Simulates, reduce_stk-Simulates, on_period-Simulates, on_rparen-Simulates)

    on_token-Simulates :
        (ty : TokenType) (stk : Stack) (txt : Text)
        → Simulates Same (on_token a l stk ty txt) (on_token b m stk ty txt)
    unfolding on_token
    on_token-Simulates bool stk txt = search (cases, alike) depth 8
    on_token-Simulates _ stk txt = search (cases, alike) depth 8

  parse_loop-Simulates : (f : ℕ) → Alike (parse_loop a f) (parse_loop b f)
  unfolding parse_loop
  parse_loop-Simulates zero stk = search parsing
  parse_loop-Simulates (suc f) stk =
      search
        (parsing, on_token-Simulates (parse_loop a f) (parse_loop b f) (parse_loop-Simulates f))
        depth 9

  -- Two sources of tokens that run in step make the parser return the same node and stay in step, throw
  -- the same error, have the same fault or run as long.
  pub parse_sexp-Simulates : (f : ℕ) → Simulates Same (parse_sexp a f) (parse_sexp b f)
  unfolding parse_sexp
  parse_sexp-Simulates f = parse_loop-Simulates f []
