-- ===== src/Lexer/Streams.antt =====
-- The lexer on two streams of characters that run in step.
use llscheme.Base.{ℕ, zero, suc, ◌||◌, ◌≡◌, Text, codes, ◌==◌, has}
use llscheme.Base.Simulation
use llscheme.Base.Simulation.{Related, Simulates, both_ok, simulation}
use llscheme.CodeStream.{CodeStream, eof_char, CodeStreamStream, code_stream_stream}
use llscheme.CodeStream.View.{Source, source, Shows, getchar-Shows, consume-Shows}
use llscheme.Token.{token, eof_type}
use llscheme.Lexer.{
  cur_char, eat, at_delimiter, at_subsequent, get_identifier, get_number, get_peculiar_identifier,
  get_ellipsis, get_dot, to_line_end, skip_comment, to_quote, get_string, bad_special,
  get_pound_special, get_token, blanks, next_token,
}

-- Two streams in step: the same characters, and related states after each operation.
pub record InStep (a b : CodeStream) (R : a.State → b.State → Type 0) : Type 0 where
  pub same_char : (s : a.State) (t : b.State) → R s t → (a.getchar s).0 ≡ (b.getchar t).0
  pub getchar : (s : a.State) (t : b.State) → R s t → R (a.getchar s).1 (b.getchar t).1
  pub consume : (s : a.State) (t : b.State) → R s t → R (a.consume s) (b.consume t)

module _ (a b : CodeStream) (R : a.State → b.State → Type 0) (step : InStep a b R) where
  cur_char-Simulates : Simulates R (cur_char a) (cur_char b)
  unfolding cur_char
  cur_char-Simulates = record {
    from = λ s t r. rw (step.same_char s t r) (both_ok _ (step.getchar s t r));
  }

  eat-Simulates : Simulates R (eat a) (eat b)
  unfolding eat
  eat-Simulates = record { from = λ s t r. both_ok tt (step.consume s t r) }

  at_delimiter-Simulates : Simulates R (at_delimiter a) (at_delimiter b)
  unfolding at_delimiter
  at_delimiter-Simulates = search (simulation, cur_char-Simulates)

  at_subsequent-Simulates : Simulates R (at_subsequent a) (at_subsequent b)
  unfolding at_subsequent
  at_subsequent-Simulates = search (simulation, cur_char-Simulates)

  ruleset lexing = (
    simulation, cur_char-Simulates, eat-Simulates, at_delimiter-Simulates, at_subsequent-Simulates,
  )

  get_number-Simulates :
      (f : ℕ) (digits : Text) → Simulates R (get_number a f digits) (get_number b f digits)
  unfolding get_number
  get_number-Simulates zero digits = search lexing
  get_number-Simulates (suc f) digits = search (lexing, get_number-Simulates f)

  get_identifier-Simulates :
      (f : ℕ) (sym : Text) → Simulates R (get_identifier a f sym) (get_identifier b f sym)
  unfolding get_identifier
  get_identifier-Simulates zero sym = search lexing
  get_identifier-Simulates (suc f) sym = search (lexing, get_identifier-Simulates f) depth 12

  get_peculiar_identifier-Simulates :
      (f : ℕ) → Simulates R (get_peculiar_identifier a f) (get_peculiar_identifier b f)
  unfolding get_peculiar_identifier
  get_peculiar_identifier-Simulates f = search (lexing, get_number-Simulates) depth 12

  get_ellipsis-Simulates : Simulates R (get_ellipsis a) (get_ellipsis b)
  unfolding get_ellipsis
  get_ellipsis-Simulates = search lexing depth 12

  get_dot-Simulates : (f : ℕ) → Simulates R (get_dot a f) (get_dot b f)
  unfolding get_dot
  get_dot-Simulates f = search (lexing, get_number-Simulates, get_ellipsis-Simulates) depth 12

  to_line_end-Simulates : (f : ℕ) → Simulates R (to_line_end a f) (to_line_end b f)
  unfolding to_line_end
  to_line_end-Simulates zero = search lexing
  to_line_end-Simulates (suc f) = Simulation.bind-Simulates eat-Simulates (λ _.
      Simulation.bind-Simulates cur_char-Simulates (λ c.
        Simulation.if-Simulates (c == 13 || c == 10) (Simulation.pure-Simulates tt)
          (to_line_end-Simulates f)))

  skip_comment-Simulates : (f : ℕ) → Simulates R (skip_comment a f) (skip_comment b f)
  unfolding skip_comment
  skip_comment-Simulates f = search (lexing, to_line_end-Simulates)

  to_quote-Simulates : (f : ℕ) (str : Text) → Simulates R (to_quote a f str) (to_quote b f str)
  unfolding to_quote
  to_quote-Simulates zero str = search lexing
  to_quote-Simulates (suc f) str = search (lexing, to_quote-Simulates f) depth 12

  get_string-Simulates : (f : ℕ) → Simulates R (get_string a f) (get_string b f)
  unfolding get_string
  get_string-Simulates f = search (lexing, to_quote-Simulates)

  bad_special-Simulates :
      (literal : Text) (c : ℕ) → Simulates R (bad_special literal c) (bad_special literal c)
  unfolding bad_special
  bad_special-Simulates literal c = search lexing

  get_pound_special-Simulates :
      (f : ℕ) → Simulates R (get_pound_special a f) (get_pound_special b f)
  unfolding get_pound_special
  get_pound_special-Simulates f =
      search (lexing, get_number-Simulates, bad_special-Simulates) depth 14

  get_token-Simulates : (f c : ℕ) → Simulates R (get_token a f c) (get_token b f c)
  unfolding get_token
  get_token-Simulates f c =
      search
        (
          lexing, get_identifier-Simulates, get_number-Simulates, get_peculiar_identifier-Simulates,
          get_dot-Simulates, get_string-Simulates, get_pound_special-Simulates,
        )
        depth 20

  next_token-Simulates : (f : ℕ) → Simulates R (next_token a f) (next_token b f)
  unfolding next_token
  next_token-Simulates zero = search lexing
  next_token-Simulates (suc f) = Simulation.bind-Simulates cur_char-Simulates λ c.
      Simulation.if-Simulates (c == eof_char)
        (Simulation.pure-Simulates (token eof_type (codes "<EOF>")))
        (Simulation.if-Simulates (has c blanks)
          (Simulation.bind-Simulates eat-Simulates λ _. next_token-Simulates f)
          (Simulation.if-Simulates (c == b';')
            (Simulation.bind-Simulates (skip_comment-Simulates f) λ _. next_token-Simulates f)
            (get_token-Simulates f c)))

streams_in_step : InStep code_stream_stream source Shows
streams_in_step = record {
  same_char = λ s t r. (getchar-Shows r).0;
  getchar = λ s t r. (getchar-Shows r).1;
  consume = λ s t r. consume-Shows r;
}

pub lexers_in_step :
    (f : ℕ) → Simulates Shows (next_token code_stream_stream f) (next_token source f)
lexers_in_step = next_token-Simulates code_stream_stream source Shows streams_in_step

-- On a stream that shows a text, however much of it is buffered, the lexer returns the same token and
-- shows the same rest, throws the same error, or runs as long, as on the text itself.
pub next_token-Related :
    (f : ℕ) (s : CodeStreamStream) (t : Source)
    → Shows s t
    → Related Shows (next_token code_stream_stream f s) (next_token source f t)
next_token-Related f = (lexers_in_step f).from
