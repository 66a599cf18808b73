-- ===== src/Lexer/Grammar.antt =====
-- The lexical grammar that src/lexer.cc accepts, and the tokens that it gives for it.
pub mod Read
use llscheme.Base.{ℕ, ◌≡◌, ◌≢◌, Bool, true, false, [], ◌∷◌, ◌++◌, ◌||◌, Text, codes, has, ◌==◌}
use llscheme.Token.{Token, token, lparen, symbol, number, rparen, period, string, bool, quote}
use llscheme.Lexer.{blanks}
use llscheme.Lexer.Chars.{dec, is_digit, is_initial}
use llscheme.Lexer.Lexemes.{NoDelimiter, AllSubsequent, NoLineEnd}

-- Lexemes that end by themselves.
pub data Closed : Text → Token → Type 0 where
  open_paren : Closed (codes "(") (token lparen (codes "("))
  close_paren : Closed (codes ")") (token rparen (codes ")"))
  quotation : Closed (codes "'") (token quote (codes "'"))
  literal : (w : Text) → has b'"' w ≡ false → Closed (b'"' ∷ w ++ b'"' ∷ []) (token string w)

-- Lexemes that a delimiter has to follow.
pub data Open : Text → Token → Type 0 where
  identifier :
      (c : ℕ) (w : Text)
      → is_initial c ≡ true
      → AllSubsequent w
      → Open (c ∷ w) (token symbol (c ∷ w))
  sign : (c : ℕ) → has c (codes "+-") ≡ true → Open (c ∷ []) (token symbol (c ∷ []))
  ellipsis : Open (codes "...") (token symbol (codes "..."))
  dot : Open (codes ".") (token period (codes "."))
  truth : (c : ℕ) → has c (codes "tf") ≡ true → Open (b'#' ∷ c ∷ []) (token bool (b'#' ∷ c ∷ []))
  digits :
      (c : ℕ) (w : Text)
      → is_digit dec c ≡ true
      → NoDelimiter w
      → Open (c ∷ w) (token number (c ∷ w))
  signed :
      (c : ℕ) (w : Text)
      → has c (codes "+-") ≡ true
      → w ≢ []
      → NoDelimiter w
      → Open (c ∷ w) (token number (c ∷ w))
  fraction :
      (c : ℕ) (w : Text)
      → (c == b'.') ≡ false
      → NoDelimiter (c ∷ w)
      → Open (b'.' ∷ c ∷ w) (token number (b'.' ∷ c ∷ w))
  prefixed :
      (c : ℕ) (w : Text)
      → has c (codes "bodxie") ≡ true
      → NoDelimiter w
      → Open (b'#' ∷ c ∷ w) (token number (b'#' ∷ c ∷ w))

-- What separates lexemes: white space, and comments up to the end of their line.
pub data Gap : Text → Type 0 where
  no_gap : Gap []
  blank : (c : ℕ) {g : Text} → has c blanks ≡ true → Gap g → Gap (c ∷ g)
  comment :
      (w : Text) (d : ℕ) {g : Text}
      → NoLineEnd w
      → (d == 13 || d == 10) ≡ true
      → Gap g
      → Gap (b';' ∷ w ++ d ∷ g)
