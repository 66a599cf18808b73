-- ===== src/Main.antt =====
-- `main` of src/main.cc, from the construction of its stream to the program that it has read. The
-- options and the interpreter are left out, but for the flag that -p sets.
pub mod Program
pub mod RoundTrip
use llscheme.Base.{ℕ, zero, suc, Bool, true, false, [], ◌∷◌, Text, codes, if◌then◌else◌}
use llscheme.Base.Outcome.{Outcome, ok, and_then, ◌>>=◌, pure, looping}
use llscheme.CodeStream.{CodeStream, open_stream, code_stream_stream}
use llscheme.Token.{same_type, eof_type}
use llscheme.Lexer.{next_token}
use llscheme.Ast.{Node, symbol, SExpr, new_sexpr, add_argument, node_of}
use llscheme.Parser.{TokenSource, Parser, Parse, peek_token, parse_sexp}
use llscheme.Parser.Grammar.{ready}

-- A `Lexer` on a stream, with fuel for its loops.
abbrev pub lexer : CodeStream → ℕ → TokenSource
lexer cs f = record { State = cs.State; next_token = next_token cs f }

-- `createDisplaySexp`
unfoldable pub create_display_sexp : Node → SExpr
unfolding add_argument
create_display_sexp n = add_argument (add_argument new_sexpr (symbol (codes "display"))) n

-- The loop of `main`: the expressions up to the end of the input become arguments of `ast`, each in a
-- call of `display` if `print_trace` is set.
module _ (src : TokenSource) (fuel : ℕ) (print_trace : Bool) where
  unfoldable pub read_all : ℕ → SExpr → Parse src Node
  unfolding peek_token create_display_sexp add_argument
  read_all zero ast = looping
  read_all (suc n) ast = do
    t ← peek_token src 1
    if same_type t.type eof_type then pure (node_of ast) else do
      v ← parse_sexp src fuel
      read_all n (add_argument ast (if print_trace then node_of (create_display_sexp v) else v))

unfoldable pub begin : SExpr
unfolding add_argument
begin = add_argument new_sexpr (symbol (codes "begin"))

-- The program that `main` builds from its standard input. All loops run on the same fuel.
unfoldable pub read_program : ℕ → Bool → Text → Outcome Node
read_program f print_trace input =
    and_then
      (read_all (lexer code_stream_stream f) f print_trace f begin (ready (open_stream input)))
      λ (v, p). ok v
