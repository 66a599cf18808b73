-- ===== src/Examples/Reading.antt =====
-- Programs and expressions that are read and printed: src/main.cc, src/parser.cc and `finePrint`.
use llscheme.Base.{◌≡◌, refl, ◌⊎◌, ◌↔◌, true, false, [], ◌∷◌, ◌++◌, arith, Text, codes}
use llscheme.Base.Outcome.{ok, fault, missing_return, out_of_bounds}
use llscheme.Token.{token, lparen, rparen, TokenType}
use llscheme.Lexer.Chars.{is_digit, is_initial, is_subsequent, is_delimiter}
use llscheme.Lexer.Grammar.{identifier, digits}
use llscheme.Ast.{Node, number, symbol, sexpr, none_left, arg, new_sexpr}
use llscheme.Ast.Print.{fine_print}
use llscheme.Ast.Print.Singletons.{has_single, fine_print-cases}
use llscheme.Ast.Print.Readable.{
  Printable, plain_number, plain_symbol, longer_list, none_more, one_more,
}
use llscheme.Parser.{parse_sexp}
use llscheme.Parser.Grammar.{
  Tokens, tokens, ready, Spells, SpellsAll, a_number, a_symbol, list, nothing, following,
}
use llscheme.Parser.Grammar.Sound.{Ensures, Read, parse_sexp-Read, parse_sexp-eq-ok_iff}
use llscheme.Parser.Grammar.Complete.{append_nodes, parse_sexp-unclosed}
use llscheme.Main.{read_all, read_program}
use llscheme.Main.Program.{size, traced, ended, read_all-SpellsAll}
use llscheme.Main.RoundTrip.{listing, read_program-listing}

-- the node of `(f 1)`, its tokens, and the texts of its atoms
abbrev call : Node
call = sexpr (arg (symbol (codes "f")) (arg (number (codes "1")) none_left)) false

abbrev call_tokens : Tokens
call_tokens =
    token lparen (codes "(")
    ∷ token TokenType.symbol (codes "f")
    ∷ token TokenType.number (codes "1")
    ∷ token rparen (codes ")")
    ∷ []

abbrev a_rparen : Tokens
a_rparen = token rparen (codes ")") ∷ []

call-Printable : Printable call
unfolding is_digit is_initial is_subsequent is_delimiter
call-Printable =
    longer_list false (plain_symbol (codes "f") (identifier b'f' [] refl tt))
      (one_more (plain_number (codes "1") (digits b'1' [] refl tt)) none_more)

args-SpellsAll :
    SpellsAll
      (arg (symbol (codes "f")) (arg (number (codes "1")) none_left))
      (token TokenType.symbol (codes "f") ∷ token TokenType.number (codes "1") ∷ [])
args-SpellsAll = following (a_symbol (codes "f")) (following (a_number (codes "1")) nothing)

call-Spells : Spells call call_tokens
call-Spells = list (codes "(") (codes ")") args-SpellsAll

read_program-listing_example :
    read_program 20 true (codes "(f 1)\n")
    ≡ ok (sexpr (arg (symbol (codes "begin")) (traced true (arg call none_left))) false)
unfolding listing fine_print
read_program-listing_example =
    read_program-listing (one_more call-Printable none_more) refl 20 true (omega arith)

parse_sexp-eq-ok_iff_example :
    (parse_sexp tokens 9 (ready (call_tokens ++ a_rparen)) ≡ ok (call, ready a_rparen))
    ↔ ((us : Tokens) × (call_tokens ++ a_rparen ≡ us ++ a_rparen) × Spells call us)
parse_sexp-eq-ok_iff_example =
    parse_sexp-eq-ok_iff 9 (call_tokens ++ a_rparen) a_rparen call (omega arith)

parse_sexp-Read_example :
    Ensures
      (Read [] (call_tokens ++ a_rparen))
      (parse_sexp tokens 9 (ready (call_tokens ++ a_rparen)))
parse_sexp-Read_example = parse_sexp-Read 9 (call_tokens ++ a_rparen) (omega arith)

parse_sexp-unclosed_example :
    parse_sexp tokens 9 (
      ready (
        token lparen (codes "(")
        ∷ token TokenType.symbol (codes "f")
        ∷ token TokenType.number (codes "1")
        ∷ []))
    ≡ fault missing_return
parse_sexp-unclosed_example = parse_sexp-unclosed (codes "(") args-SpellsAll 9 (omega arith)

read_all-SpellsAll_example :
    read_all tokens 9 false 9 new_sexpr (ready (call_tokens ++ []))
    ≡ ok (sexpr (append_nodes none_left (arg call none_left)) false, ended)
unfolding size
read_all-SpellsAll_example =
    read_all-SpellsAll false (following call-Spells nothing) 9 9 new_sexpr (omega arith)
      (omega arith)

fine_print-cases_example :
    ((has_single call ≡ true) × (fine_print call ≡ fault out_of_bounds))
    ⊎ ((has_single call ≡ false) × ((s : Text) × (fine_print call ≡ ok s)))
fine_print-cases_example = fine_print-cases call
