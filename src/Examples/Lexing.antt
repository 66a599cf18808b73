-- ===== src/Examples/Lexing.antt =====
-- Texts that are read character by character and cut into tokens: src/codestream.cc and src/lexer.cc.
use llscheme.Base.{◌+◌, ◌≡◌, refl, [], arith, Text, codes, length}
use llscheme.Base.Outcome.{Outcome, ok, throws, diverge, invalid_identifier, invalid_dot}
use llscheme.Base.Simulation.{Related}
use llscheme.CodeStream.{open_stream, code_stream_stream, advance, consume, cursor}
use llscheme.CodeStream.View.{
  Source, source, source_of, text_at, start, Shows, open_stream-Shows, consume-Shows,
}
use llscheme.CodeStream.Places.{consume_times, newlines, last_line, consume_times-cursor}
use llscheme.Token.{Token, token, TokenType}
use llscheme.Lexer.{next_token, get_identifier, get_number}
use llscheme.Lexer.Chars.{is_digit, is_initial, is_subsequent, is_delimiter}
use llscheme.Lexer.Lexemes.{after, get_identifier-invalid, get_number-diverge_at}
use llscheme.Lexer.Grammar.{no_gap, blank, identifier, literal}
use llscheme.Lexer.Grammar.Read.{next_token-Gap, next_token-Closed, next_token-Open}
use llscheme.Lexer.Streams.{next_token-Related}

run : Text → Outcome (Token × Source)
unfolding next_token is_initial is_subsequent is_delimiter is_digit
run cs = next_token source 30 (source_of cs)

run_comment :
    run (codes "  ; hi\n list-ref)")
    ≡ ok (
      token TokenType.symbol (codes "list-ref"),
      text_at (codes ")") (record { cur_line = 2; cur_column = 10 }),
    )
unfolding run after advance
run_comment = refl

run_ellipsis : run (codes "..)") ≡ throws invalid_dot
unfolding run
run_ellipsis = refl

run_number : run (codes "-12") ≡ diverge
unfolding run advance
run_number = refl

next_token-Related_example :
    Related Shows
      (next_token code_stream_stream 20 (consume (open_stream (codes "(f 1)"))))
      (next_token source 20 (text_at (codes "f 1)") (record { cur_line = 1; cur_column = 2 })))
unfolding consume advance
next_token-Related_example =
    next_token-Related 20 (consume (open_stream (codes "(f 1)")))
      (text_at (codes "f 1)") (record { cur_line = 1; cur_column = 2 }))
      (consume-Shows (open_stream-Shows (codes "(f 1)")))

next_token-Open_example :
    next_token source 20 (text_at (codes "f 1)") start)
    ≡ ok (token TokenType.symbol (codes "f"), text_at (codes " 1)") (after (codes "f") start))
unfolding is_initial is_delimiter
next_token-Open_example =
    next_token-Open 20 b' ' (codes "1)") start (identifier b'f' [] refl tt) refl (omega arith)

next_token-Closed_example :
    next_token source 20 (text_at (codes "\"a b\"c") start)
    ≡ ok (token TokenType.string (codes "a b"), text_at (codes "c") (after (codes "\"a b\"") start))
next_token-Closed_example =
    next_token-Closed 20 (codes "c") start (literal (codes "a b") refl) (omega arith)

next_token-Gap_example :
    next_token source 20 (text_at (codes " \nf 1)") start)
    ≡ ok (
      token TokenType.symbol (codes "f"),
      text_at (codes " 1)") (record { cur_line = 2; cur_column = 2 }),
    )
unfolding is_initial is_delimiter after advance
next_token-Gap_example =
    next_token-Gap
      (ok (
        token TokenType.symbol (codes "f"),
        text_at (codes " 1)") (record { cur_line = 2; cur_column = 2 }),
      ))
      (codes "f 1)") 5 (blank b' ' refl (blank b'\n' refl no_gap)) 20 start (omega arith)
      λ f' l. next_token-Open f' b' ' (codes "1)") _ (identifier b'f' [] refl tt) refl (omega arith)

get_identifier-invalid_example :
    get_identifier source 9 [] (text_at (codes "ab#") start) ≡ throws (invalid_identifier b'#')
unfolding is_subsequent is_delimiter
get_identifier-invalid_example =
    get_identifier-invalid 8 [] b'a' (codes "b") (codes "#") start (refl, tt) refl refl
      (omega arith)

get_number-diverge_at_example : get_number source 1000 [] (text_at (codes "12") start) ≡ diverge
unfolding is_delimiter
get_number-diverge_at_example = get_number-diverge_at 1000 [] (codes "12") start (refl, (refl, tt))

consume_times-cursor_example : cursor (consume_times 5 (open_stream (codes "ab\ncdef"))) ≡ record {
  cur_line = 1 + newlines (codes "ab\ncd");
  cur_column = 1 + length (last_line (codes "ab\ncd"));
}
consume_times-cursor_example = consume_times-cursor (codes "ab\ncd") (codes "ef")
