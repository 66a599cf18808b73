-- ===== src/Lexer.antt =====
-- src/lexer.cc and src/include/lexer.hh: characters to tokens, over any `CodeStream`.
-- A loop of the source runs on fuel, and `diverge` is the outcome when that is used up.
pub mod Chars
pub mod Streams
pub mod Lexemes
pub mod Grammar
pub mod Yields
use llscheme.Base.{
  ℕ, zero, suc, Bool, true, false, [], ◌∷◌, ◌++◌, ◌||◌, Text, codes, drop, length, ◌==◌, leb, has,
  if◌then◌else◌,
}
use llscheme.Base.Outcome.{
  Routine, ok, ◌>>=◌, ◌>>◌, pure, throw, undefined, looping, invalid_character, invalid_identifier,
  invalid_dot, invalid_special, pointer_past_literal,
}
use llscheme.CodeStream.{CodeStream, eof_char}
use llscheme.Token.{
  Token, token, eof_type, lparen, symbol, number, rparen, period, string, bool, quote,
}
use Chars.{dec, is_initial, is_subsequent, is_delimiter, is_digit}

-- the white space that `nextToken` skips
abbrev pub blanks : Text
blanks = 32 ∷ 9 ∷ 10 ∷ 13 ∷ []

-- `throw Error("literal" + curChar())` adds the character to the pointer: the message is what is
-- left of the literal, or is read beyond it. Patterns above 127 are negative.
bad_special : {S : Type 0} → Text → ℕ → Routine S Token
bad_special literal c =
    if leb c (length literal)
    then throw (invalid_special (drop c literal))
    else undefined pointer_past_literal

module _ (cs : CodeStream) where
  open cs use {State, getchar, consume}

  abbrev pub Lex : Type 0 → Type 0
  Lex A = Routine State A

  unfoldable pub cur_char : Lex ℕ
  cur_char s = ok (getchar s)

  unfoldable pub eat : Lex (Unit {0})
  eat s = ok (tt, consume s)

  unfoldable pub at_delimiter : Lex Bool
  unfolding cur_char
  at_delimiter = do ch ← cur_char; pure (is_delimiter ch)

  unfoldable pub at_subsequent : Lex Bool
  unfolding cur_char
  at_subsequent = do ch ← cur_char; pure (is_subsequent ch)

  unfoldable pub get_identifier : ℕ → Text → Lex Token
  unfolding cur_char eat at_delimiter at_subsequent
  get_identifier zero sym = looping
  get_identifier (suc f) sym = do
    ch ← cur_char
    eat
    more ← at_subsequent
    if more then get_identifier f (sym ++ ch ∷ []) else do
      ended ← at_delimiter
      if ended
          then pure (token symbol (sym ++ ch ∷ []))
          else do c ← cur_char; throw (invalid_identifier c)

  unfoldable pub get_number : ℕ → Text → Lex Token
  unfolding cur_char eat at_delimiter
  get_number zero digits = looping
  get_number (suc f) digits = do
    ch ← cur_char
    eat
    ended ← at_delimiter
    if ended then pure (token number (digits ++ ch ∷ [])) else get_number f (digits ++ ch ∷ [])

  unfoldable pub get_peculiar_identifier : ℕ → Lex Token
  unfolding get_number
  get_peculiar_identifier f = do
    ch ← cur_char
    eat
    ended ← at_delimiter
    if ended then pure (token symbol (ch ∷ [])) else get_number f (ch ∷ [])

  -- the dot is consumed, and a second one is next
  unfoldable pub get_ellipsis : Lex Token
  unfolding cur_char eat at_delimiter
  get_ellipsis = do
    eat
    ch ← cur_char
    if ch == b'.'
        then (do
          eat
          ended ← at_delimiter
          if ended then pure (token symbol (codes "...")) else throw invalid_dot)
        else throw invalid_dot

  unfoldable pub get_dot : ℕ → Lex Token
  unfolding get_number get_ellipsis
  get_dot f = do
    eat
    ended ← at_delimiter
    if ended
        then pure (token period (codes "."))
        else do ch ← cur_char; if ch == b'.' then get_ellipsis else get_number f (codes ".")

  unfoldable pub to_line_end : ℕ → Lex (Unit {0})
  unfolding cur_char eat
  to_line_end zero = looping
  to_line_end (suc f) = do
    eat
    ch ← cur_char
    if ch == 13 || ch == 10 then pure tt else to_line_end f

  unfoldable pub skip_comment : ℕ → Lex (Unit {0})
  unfolding to_line_end
  skip_comment f = to_line_end f >> eat

  unfoldable pub to_quote : ℕ → Text → Lex Token
  unfolding cur_char eat
  to_quote zero str = looping
  to_quote (suc f) str = do
    ch ← cur_char
    if ch == b'"' then (do eat; pure (token string str)) else do eat; to_quote f (str ++ ch ∷ [])

  unfoldable pub get_string : ℕ → Lex Token
  unfolding to_quote
  get_string f = do eat; to_quote f []

  unfoldable pub get_pound_special : ℕ → Lex Token
  unfolding get_number bad_special
  get_pound_special f = do
    eat
    ch ← cur_char
    if has ch (codes "tf")
        then (do
          eat
          ended ← at_delimiter
          if ended
              then pure (token bool (b'#' ∷ ch ∷ []))
              else do c ← cur_char; bad_special (codes "invalid special # ") c)
        else if has ch (codes "bodxie")
        then get_number f (codes "#")
        else bad_special (codes "invalid special #") ch

  -- the `switch` on a character that is neither blank nor the start of a comment
  unfoldable pub get_token : ℕ → ℕ → Lex Token
  unfolding get_identifier get_peculiar_identifier get_number get_dot get_string get_pound_special
  get_token f ch =
      if ch == b'('
      then (do eat; pure (token lparen (codes "(")))
      else if ch == b')'
      then (do eat; pure (token rparen (codes ")")))
      else if ch == 39
      then (do eat; pure (token quote (codes "'")))
      else if has ch (codes "+-")
      then get_peculiar_identifier f
      else if ch == b'.'
      then get_dot f
      else if ch == b'"'
      then get_string f
      else if ch == b'#'
      then get_pound_special f
      else if is_digit dec ch
      then get_number f []
      else if is_initial ch
      then get_identifier f []
      else throw (invalid_character ch)

  unfoldable pub next_token : ℕ → Lex Token
  unfolding get_token skip_comment
  next_token zero = looping
  next_token (suc f) = do
    ch ← cur_char
    if ch == eof_char
        then pure (token eof_type (codes "<EOF>"))
        else if has ch blanks
        then (do eat; next_token f)
        else if ch == b';'
        then (do skip_comment f; next_token f)
        else get_token f ch
