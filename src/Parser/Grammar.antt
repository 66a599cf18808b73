-- ===== src/Parser/Grammar.antt =====
-- The grammar that src/parser.cc accepts, over lists of tokens.
pub mod Complete
pub mod Sound
use llscheme.Base.{ℕ, Bool, true, false, List, [], ◌∷◌, ◌++◌, Text, codes, same_text}
use llscheme.Base.Outcome.{Outcome, ok}
use llscheme.Token.{
  Token, token, eof_type, lparen, symbol, number, rparen, period, string, bool, quote,
}
use llscheme.Ast.{Node, Nodes, none_left, arg, snoc, sexpr}
use llscheme.Parser.{TokenSource, Parser}

abbrev pub Tokens : Type 0
Tokens = List Token

abbrev pub end_token : Token
end_token = token eof_type (codes "<EOF>")

abbrev next_of : Tokens → Outcome (Token × Tokens)
next_of [] = ok (end_token, [])
next_of (t ∷ ts) = ok (t, ts)

-- A list of tokens that ends like the lexer does: the last token is repeated.
abbrev pub tokens : TokenSource
tokens = record { State = Tokens; next_token = next_of }

-- A parser that has asked for no token yet.
abbrev pub ready : {S : Type 0} → S → Parser S
ready i = record { lookahead = []; input = i }

mutual
  -- The tokens spell the node.
  pub data Spells : Node → Tokens → Type 0 where
    a_number : (txt : Text) → Spells (Node.number txt) (token number txt ∷ [])
    a_symbol : (txt : Text) → Spells (Node.symbol txt) (token symbol txt ∷ [])
    a_string : (txt : Text) → Spells (Node.string txt) (token string txt ∷ [])
    a_boolean :
        (txt : Text) → Spells (Node.boolean (same_text txt (codes "#t"))) (token bool txt ∷ [])
    quoted :
        (txt : Text) {v : Node} {ts : Tokens}
        → Spells v ts
        → Spells
            (sexpr (arg (Node.symbol (codes "quote")) (arg v none_left)) false)
            (token quote txt ∷ ts)
    list :
        (open_txt close_txt : Text) {vs : Nodes} {ts : Tokens}
        → SpellsAll vs ts
        → Spells (sexpr vs false) (token lparen open_txt ∷ (ts ++ token rparen close_txt ∷ []))
    dotted :
        (open_txt dot_txt close_txt : Text) {vs : Nodes} {v : Node} {ts us : Tokens}
        → SpellsAll vs ts
        → Spells v us
        → Spells (sexpr (snoc vs v) true) (
            token lparen open_txt
            ∷ (ts ++ token period dot_txt ∷ (us ++ token rparen close_txt ∷ [])))

  pub data SpellsAll : Nodes → Tokens → Type 0 where
    nothing : SpellsAll none_left []
    following :
        {v : Node} {vs : Nodes} {ts us : Tokens}
        → Spells v ts
        → SpellsAll vs us
        → SpellsAll (arg v vs) (ts ++ us)
