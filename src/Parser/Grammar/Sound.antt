-- ===== src/Parser/Grammar/Sound.antt =====
-- About the outcomes of the parser, measured by the grammar, and about the end of its loop.
use llscheme.Base.{
  ℕ, zero, suc, ◌+◌, ◌≤◌, ◌<◌, ◌≡◌, ◌≢◌, ◌↔◌, refl, sym, ap, ◌∙◌, subst, Bool-cases, inl, inr,
  false, [], ◌∷◌, ◌++◌, append_assoc, append-nil, arith, Text, length, length-append,
}
use llscheme.Base.Outcome.{Error, Outcome, ok, throws, fault, diverge, missing_return, and_then}
use llscheme.Token.{
  TokenType, token, same_type, eof_type, lparen, symbol, number, rparen, period, string, bool,
  quote,
}
use llscheme.Ast.{Node, Nodes, snoc, SExpr, node_of, add_argument, tag_dotted}
use llscheme.Parser.{
  Parser, Parse, Stack, attach, reduce_stk, parse_loop, parse_sexp, on_token, on_period, match,
  boolean_of,
}
use llscheme.Parser.Grammar.{
  Tokens, tokens, ready, Spells, a_number, a_symbol, a_string, a_boolean, quoted, list, dotted,
  SpellsAll, nothing, following,
}
use llscheme.Parser.Grammar.Complete.{reduce_stk-attach, parse_sexp-Spells}

length-tokens : (ts us : Tokens) → length (ts ++ us) ≡ length ts + length us
length-tokens = length-append

-- The run is not out of fuel, reads nothing outside a container, and `P` holds of what it returns.
pub data Ensures {A : Type 0} (P : A → Type 0) : Outcome A → Type 0 where
  holds : {a : A} → P a → Ensures P (ok a)
  thrown : (e : Error) → Ensures P (throws e)
  unfinished : Ensures P (fault missing_return)

module _ {A : Type 0} {P : A → Type 0} where
  Ensures-map : {Q : A → Type 0} {r : Outcome A} → Ensures P r → ((a : A) → P a → Q a) → Ensures Q r
  Ensures-map (holds {a} p) h = holds (h a p)
  Ensures-map (thrown e) h = thrown e
  Ensures-map unfinished h = unfinished

  Ensures-bind :
      {B : Type 0} {Q : B → Type 0} {r : Outcome A} {k : A → Outcome B}
      → Ensures P r
      → ((a : A) → P a → Ensures Q (k a))
      → Ensures Q (and_then r k)
  Ensures-bind (holds {a} p) h = h a p
  Ensures-bind (thrown e) h = thrown e
  Ensures-bind unfinished h = unfinished

-- The expressions that are open, innermost first, and the tokens that opened and filled them.
data StackSpells : Stack → Tokens → Type 0 where
  bottom : StackSpells [] []
  frame :
      (o : Text) {e : SExpr} {stk : Stack} {qs ts ps : Tokens}
      → StackSpells stk qs
      → e.is_dotted ≡ false
      → SpellsAll e.args ts
      → ps ≡ qs ++ token lparen o ∷ ts
      → StackSpells (e ∷ stk) ps

-- A node was read off `ts`, which together with `ps` before it spells the node.
pub record Read (ps ts : Tokens) (out : Node × Parser Tokens) : Type 0 where
  pub used : Tokens
  pub rest : Tokens
  pub stops : out.1 ≡ ready rest
  pub split : ts ≡ used ++ rest
  pub spelled : Spells out.0 (ps ++ used)

Read-shift :
    (c : Tokens) {ps ps' ts : Tokens} (out : Node × Parser Tokens)
    → ps' ≡ ps ++ c
    → Read ps' ts out
    → Read ps (c ++ ts) out
Read-shift c {ps} out e r = record {
  used = c ++ r.used;
  rest = r.rest;
  stops = r.stops;
  split = rw (r.split, append_assoc c r.used r.rest);
  spelled =
      subst (Spells out.0) (ap (λ (q : Tokens). q ++ r.used) e ∙ append_assoc ps c r.used)
        r.spelled;
}

SpellsAll-snoc :
    {vs : Nodes} {v : Node} {ts us : Tokens}
    → SpellsAll vs ts
    → Spells v us
    → SpellsAll (snoc vs v) (ts ++ us)
SpellsAll-snoc {us} nothing s = subst (SpellsAll _) (append-nil us) (following s nothing)
SpellsAll-snoc {us} (following {ts = ts₁} {us = us₁} t ss) s =
    rw (append_assoc ts₁ us₁ us) (following t (SpellsAll-snoc ss s))

-- The loop reads from `ts`, whatever is open.
abbrev LoopReads : (Stack → Parse tokens Node) → Tokens → Type 0
LoopReads loop ts =
    (stk : Stack) (ps : Tokens) → StackSpells stk ps → Ensures (Read ps ts) (loop stk (ready ts))

attach-Read :
    (loop : Stack → Parse tokens Node) {stk : Stack} {v : Node} {qs us : Tokens} (ts : Tokens)
    → LoopReads loop ts
    → StackSpells stk qs
    → Spells v us
    → Ensures (Read (qs ++ us) ts) (attach tokens loop stk v (ready ts))
unfolding attach add_argument
attach-Read loop {us} ts l bottom s =
    holds (record { used = []; rest = ts; stops = refl; split = refl; spelled = rw append-nil s })
attach-Read loop {us} ts l (frame o {e} {stk} {qs} {ts = ts'} b n ss p) s =
    Ensures-map (l _ _ (frame o b n (SpellsAll-snoc ss s) refl))
      λ out r. subst (λ q. Read q ts out) (rw (p, append_assoc qs (token lparen o ∷ ts') us)) r

reduce_stk-Read :
    (loop : Stack → Parse tokens Node) {e : SExpr} {stk : Stack} {qs us : Tokens} (ts : Tokens)
    → LoopReads loop ts
    → StackSpells stk qs
    → Spells (node_of e) us
    → Ensures (Read (qs ++ us) ts) (reduce_stk tokens loop (e ∷ stk) (ready ts))
reduce_stk-Read loop {e} {stk} ts l b s =
    rw (reduce_stk-attach loop e stk) (attach-Read loop ts l b s)

-- `match` throws, or takes a token of the type that it asks for.
data Matched (ty : TokenType) : Tokens → Outcome (Unit {0} × Parser Tokens) → Type 0 where
  refused : (ts : Tokens) (e : Error) → Matched ty ts (throws e)
  taken : (txt : Text) (rest : Tokens) → Matched ty (token ty txt ∷ rest) (ok (tt, ready rest))

match-Matched : (ts : Tokens) → Matched rparen ts (match tokens rparen (ready ts))
unfolding match
match-Matched [] = refused [] _
match-Matched (t ∷ ts) = go t.type t.text
  where
    go :
        (ty : TokenType) (txt : Text)
        → Matched rparen (token ty txt ∷ ts) (match tokens rparen (ready (token ty txt ∷ ts)))
    go rparen txt = taken txt ts
    go _ txt = refused _ _

shifted :
    (c : Tokens) {ps ps' ts ts' : Tokens} {r : Outcome (Node × Parser Tokens)}
    → ps' ≡ ps ++ c
    → ts' ≡ c ++ ts
    → Ensures (Read ps' ts) r
    → Ensures (Read ps ts') r
shifted c {ps} e e' h =
    Ensures-map h λ out r. subst (λ q. Read ps q out) (sym e') (Read-shift c out e r)

closing-Read :
    (loop : Stack → Parse tokens Node) {e : SExpr} {stk : Stack} {qs : Tokens} (us : Tokens)
    {rest : Tokens} {m : Outcome (Unit {0} × Parser Tokens)}
    → Matched rparen rest m
    → ((rest' : Tokens) → length rest' ≤ length rest → LoopReads loop rest')
    → StackSpells stk qs
    → ((c : Text) → Spells (node_of e) (us ++ token rparen c ∷ []))
    → Ensures (Read (qs ++ us) rest) (and_then m (λ x. reduce_stk tokens loop (e ∷ stk) x.1))
closing-Read loop us (refused ts e) l b h = thrown e
closing-Read loop {qs} us (taken c rest) l b h =
    shifted (token rparen c ∷ []) (sym (append_assoc qs us (token rparen c ∷ []))) refl
      (reduce_stk-Read loop rest (l rest (omega arith)) b (h c))

Read-shorter :
    {ps ts : Tokens} {out : Node × Parser Tokens} (r : Read ps ts out) → length r.rest ≤ length ts
Read-shorter r = omega (arith, ap length r.split, length-tokens r.used r.rest)

module _ (loop : Stack → Parse tokens Node) (ts : Tokens)
    (l : (ts' : Tokens) → length ts' ≤ length ts → LoopReads loop ts') where
  on_period-Read :
      (txt : Text) (stk : Stack) (ps : Tokens)
      → StackSpells stk ps
      → Ensures (Read ps (token period txt ∷ ts)) (on_period tokens loop stk (ready ts))
  unfolding on_period tag_dotted add_argument
  on_period-Read txt stk ps bottom = thrown _
  on_period-Read txt stk ps (frame o {e} {stk = stk'} {qs} {ts = ts'} b n ss p) =
      Ensures-bind (l ts (omega arith) [] [] bottom) λ out r. rw (r.stops) (
        shifted (token period txt ∷ r.used)
          (rw (p, append_assoc qs (token lparen o ∷ ts') (token period txt ∷ r.used)))
          (ap (λ (q : Tokens). token period txt ∷ q) r.split)
          (closing-Read loop (token lparen o ∷ (ts' ++ token period txt ∷ r.used))
            (match-Matched r.rest) (λ rest' le. l rest' (omega (arith, Read-shorter r))) b
            λ c.
              rw (append_assoc ts' (token period txt ∷ r.used) (token rparen c ∷ []))
                (dotted o txt c ss r.spelled)))

  on_token-Read :
      (ty : TokenType) (txt : Text) (stk : Stack) (ps : Tokens)
      → StackSpells stk ps
      → Ensures
          (Read ps (token ty txt ∷ ts))
          (on_token tokens loop stk ty txt (record { lookahead = token ty txt ∷ []; input = ts }))
  unfolding on_token boolean_of add_argument
  on_token-Read bool txt stk ps b =
      shifted (token bool txt ∷ []) refl refl
        (attach-Read loop ts (l ts (omega arith)) b (a_boolean txt))
  on_token-Read string txt stk ps b =
      shifted (token string txt ∷ []) refl refl
        (attach-Read loop ts (l ts (omega arith)) b (a_string txt))
  on_token-Read number txt stk ps b =
      shifted (token number txt ∷ []) refl refl
        (attach-Read loop ts (l ts (omega arith)) b (a_number txt))
  on_token-Read symbol txt stk ps b =
      shifted (token symbol txt ∷ []) refl refl
        (attach-Read loop ts (l ts (omega arith)) b (a_symbol txt))
  on_token-Read quote txt stk ps b = Ensures-bind (l ts (omega arith) [] [] bottom) λ out r.
      rw (r.stops) (
        shifted (token quote txt ∷ r.used) refl (ap (λ (q : Tokens). token quote txt ∷ q) r.split)
          (reduce_stk-Read loop r.rest (l r.rest (Read-shorter r)) b (quoted txt r.spelled)))
  on_token-Read lparen txt stk ps b =
      shifted (token lparen txt ∷ []) refl refl
        (l ts (omega arith) _ _ (frame txt b refl nothing refl))
  on_token-Read period txt stk ps b = on_period-Read txt stk ps b
  on_token-Read rparen txt stk ps bottom = thrown _
  on_token-Read rparen txt stk ps (frame o {e} {stk = stk'} {qs} {ts = ts'} b n ss p) =
      shifted (token rparen txt ∷ [])
        (rw (p, append_assoc qs (token lparen o ∷ ts') (token rparen txt ∷ []))) refl
        (reduce_stk-Read loop {us = token lparen o ∷ (ts' ++ token rparen txt ∷ [])} ts
          (l ts (omega arith)) b (rw n (list o txt ss)))
  on_token-Read eof_type txt stk ps b = thrown _

parse_loop-Read : (f : ℕ) (ts : Tokens) → length ts < f → LoopReads (parse_loop tokens f) ts
unfolding parse_loop
parse_loop-Read zero ts l stk ps b = absurd (omega arith)
parse_loop-Read (suc f) [] l stk ps b = unfinished
parse_loop-Read (suc f) (t ∷ ts) l stk ps b = elim (Bool-cases (same_type t.type eof_type)) [
  | inl e ↦ rw e unfinished
  | inr e ↦ rw e (
      on_token-Read (parse_loop tokens f) ts (λ ts' le. parse_loop-Read f ts' (omega arith)) t.type
        t.text stk ps b)
]

-- With more fuel than tokens, parseSExp ends: it returns a node that the tokens it has taken spell, throws
-- an error, or runs off its end at the end of the input; it never reads outside its look-ahead or its
-- stack.
pub parse_sexp-Read :
    (f : ℕ) (ts : Tokens) → length ts < f → Ensures (Read [] ts) (parse_sexp tokens f (ready ts))
unfolding parse_sexp
parse_sexp-Read f ts l = parse_loop-Read f ts l [] [] bottom

Ensures-ok : {A : Type 0} {P : A → Type 0} {r : Outcome A} {a : A} → Ensures P r → r ≡ ok a → P a
Ensures-ok {P} (holds p) e = subst P (cc) p
Ensures-ok (thrown x) e = cc
Ensures-ok unfinished e = cc

Ensures-ne-diverge : {A : Type 0} {P : A → Type 0} {r : Outcome A} → Ensures P r → r ≢ diverge
Ensures-ne-diverge (holds p) = cc
Ensures-ne-diverge (thrown x) = cc
Ensures-ne-diverge unfinished = cc

-- On a list of tokens, with more fuel than tokens, parseSExp returns a node and stops before given tokens
-- exactly when the tokens before those spell the node in the grammar.
pub parse_sexp-eq-ok_iff :
    (f : ℕ) (ts rest : Tokens) (v : Node)
    → length ts < f
    → (parse_sexp tokens f (ready ts) ≡ ok (v, ready rest))
      ↔ ((us : Tokens) × (ts ≡ us ++ rest) × Spells v us)
parse_sexp-eq-ok_iff f ts rest v l = (forth, back)
  where
    forth :
        parse_sexp tokens f (ready ts) ≡ ok (v, ready rest)
        → (us : Tokens) × (ts ≡ us ++ rest) × Spells v us
    forth e =
        let r = Ensures-ok (parse_sexp-Read f ts l) e in
        let same : rest ≡ r.rest = ap (λ (p : Parser Tokens). p.input) r.stops in
        (r.used, rw same r.split, r.spelled)

    back :
        ((us : Tokens) × (ts ≡ us ++ rest) × Spells v us)
        → parse_sexp tokens f (ready ts) ≡ ok (v, ready rest)
    back (us, e, s) =
        rw e (parse_sexp-Spells s rest f (omega (arith, ap length e, length-tokens us rest)))
