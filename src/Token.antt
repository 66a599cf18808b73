-- ===== src/Token.antt =====
-- src/include/token.hh, src/token.cc and the token types of src/include/lexer.hh.
use llscheme.Base.{ℕ, Bool, Text, codes, ◌==◌}

-- The anonymous enum of `Lexer`.
pub data TokenType : Type 0 where
  eof_type lparen symbol number rparen period string bool quote : TokenType

pub record Token : Type 0 where
  pub type : TokenType
  pub text : Text

abbrev pub token : TokenType → Text → Token
token ty txt = record { type = ty; text = txt }

-- The values of the enum, which starts at 1.
abbrev pub type_index : TokenType → ℕ
type_index eof_type = 1
type_index lparen = 2
type_index symbol = 3
type_index number = 4
type_index rparen = 5
type_index period = 6
type_index string = 7
type_index bool = 8
type_index quote = 9

abbrev pub same_type : TokenType → TokenType → Bool
same_type a b = type_index a == type_index b

-- `Lexer::getTokenName` through the table `tokenNames`.
pub get_token_name : TokenType → Text
get_token_name eof_type = codes "<EOF>"
get_token_name lparen = codes "LPAREN"
get_token_name symbol = codes "SYMBOL"
get_token_name number = codes "NUMBER"
get_token_name rparen = codes "RPAREN"
get_token_name period = codes "PERIOD"
get_token_name string = codes "STRING"
get_token_name bool = codes "BOOL"
get_token_name quote = codes "QUOTE"
