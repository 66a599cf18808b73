-- ===== src/Lexer/Chars.antt =====
-- The character classes of src/lexer.cc, on the bit pattern of a `char`. The <cctype> tests are those
-- of the "C" locale, where no character above 127 belongs to a class.
use llscheme.Base.{ℕ, Bool, ◌&&◌, ◌||◌, [], ◌∷◌, Text, codes, has, leb}

-- `radixType`
pub data Radix : Type 0 where
  dec hex : Radix

-- `std::isalpha`, `std::isdigit`, `std::isxdigit`
unfoldable pub is_alpha : ℕ → Bool
is_alpha c = (leb b'a' c && leb c b'z') || (leb b'A' c && leb c b'Z')

unfoldable pub is_decimal : ℕ → Bool
is_decimal c = leb b'0' c && leb c b'9'

unfoldable pub is_hexadecimal : ℕ → Bool
unfolding is_decimal
is_hexadecimal c = is_decimal c || (leb b'a' c && leb c b'f') || (leb b'A' c && leb c b'F')

-- the table of `isSpecialInitial`
abbrev pub special : Text
special = codes "!$%&*/:<=>?^_~"

-- the table of `isDelimiter`
abbrev pub delimiters : Text
delimiters = 9 ∷ 10 ∷ 13 ∷ 32 ∷ 34 ∷ 40 ∷ 41 ∷ 59 ∷ []

-- `Lexer::isInitial`, with `isLetter` and `isSpecialInitial`
unfoldable pub is_initial : ℕ → Bool
unfolding is_alpha
is_initial c = is_alpha c || has c special

-- `Lexer::isSubsequent`
unfoldable pub is_subsequent : ℕ → Bool
unfolding is_initial is_decimal
is_subsequent c = is_decimal c || (has c (codes "+-.@") || is_initial c)

unfoldable pub is_delimiter : ℕ → Bool
is_delimiter c = has c delimiters

-- `Lexer::isDigit`
unfoldable pub is_digit : Radix → ℕ → Bool
unfolding is_decimal is_hexadecimal
is_digit dec c = is_decimal c
is_digit hex c = is_hexadecimal c
