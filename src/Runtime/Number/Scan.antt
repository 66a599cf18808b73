-- ===== src/Runtime/Number/Scan.antt =====
-- `_ston_isdigit` and `_ston_parse_real` of src/runtime/number.c: the scan of a real number in a text.
use llscheme.Base.{
  ℕ, suc, ◌-◌, ◌*◌, Bool, true, false, not, ◌&&◌, ◌||◌, Option, none, some, [], ◌∷◌, ◌++◌, Text,
  codes, length, leb, ◌==◌, if◌then◌else◌,
}
use mathlib.Core.Option
use llscheme.Runtime.Small.{below_zero}

-- the position in a string, as `strchr` finds it
abbrev pub position : ℕ → Text → Option ℕ
position c [] = none
position c (d ∷ cs) = if c == d then some 0 else Option.map suc (position c cs)

abbrev pub at_most : ℕ → Option ℕ → Bool
at_most req none = false
at_most req (some i) = leb i req

-- `_ston_isdigit`
unfoldable pub ston_isdigit : ℕ → ℕ → Bool
ston_isdigit radix ch =
    if ch == 0 || below_zero radix
    then false
    else at_most (if leb radix 10 then radix else 2 * radix - 10)
        (position ch (codes ".0123456789aAbBcCdDeEfF"))

-- `isdigit`
abbrev pub is_decimal : ℕ → Bool
is_decimal c = leb b'0' c && leb c b'9'

-- the flags of `_ston_parse_real`
pub record Flags : Type 0 where
  pub iunit : Bool
  pub signed : Bool
  pub decimal : Bool
  pub pound : Bool
  pub precision : ℕ

-- A valid result: the characters that were read, as they have been overwritten, and the others.
pub record Parsed : Type 0 where
  pub flags : Flags
  pub read : Text
  pub rest : Text

-- a part of it: a flag, the characters read and the others
abbrev pub Scanned : Type 0
Scanned = Bool × Text × Text

abbrev pub with_char : ℕ → Option Scanned → Option Scanned
with_char c none = none
with_char c (some (flag, read, rest)) = some (flag, c ∷ read, rest)

-- the first loop, which may meet one dot
unfoldable pub scan_digits : ℕ → Bool → Text → Option Scanned
unfolding ston_isdigit
scan_digits radix decimal [] = some (decimal, [], [])
scan_digits radix decimal (c ∷ cs) =
    let rest = scan_digits radix (decimal || c == b'.') cs in
    if not (ston_isdigit radix c)
    then some (decimal, [], c ∷ cs)
    else if c == b'.' && (decimal || not (radix == 10))
    then none
    else with_char c rest

-- the second loop, along `#` and dots: both flags are kept, and `#` gives way to a zero.
unfoldable pub scan_pounds : ℕ → Bool → Bool → Text → Option (Bool × Bool × Text × Text)
scan_pounds radix decimal pound [] = some (decimal, pound, [], [])
scan_pounds radix decimal pound (c ∷ cs) =
    let after_pound = scan_pounds radix decimal true cs in
    let after_dot = scan_pounds radix true pound cs in
    if c == b'#'
    then Option.map (λ (d, p, read, rest). (d, p, b'0' ∷ read, rest)) after_pound
    else if not (c == b'.')
    then some (decimal, pound, [], c ∷ cs)
    else if decimal || not (radix == 10)
    then none
    else Option.map (λ (d, p, read, rest). (d, p, c ∷ read, rest)) after_dot

abbrev pub scan_decimals : Text → Text × Text
scan_decimals [] = ([], [])
scan_decimals (c ∷ cs) =
    let (read, rest) = scan_decimals cs in if is_decimal c then (c ∷ read, rest) else ([], c ∷ cs)

-- the precision that the letter of an exponent asks for
abbrev pub precision_of : ℕ → ℕ
precision_of c =
    if c == b's'
    then 16
    else if c == b'f'
    then 32
    else if c == b'd'
    then 64
    else if c == b'l'
    then 128
    else 0

abbrev pub is_exponent : ℕ → Bool
is_exponent c = c == b'e' || c == b's' || c == b'f' || c == b'd' || c == b'l'

-- the sign in front of a number, with the characters read
abbrev pub scan_sign : Text → Bool × Text × Text
scan_sign [] = (false, [], [])
scan_sign (c ∷ cs) = if c == b'+' || c == b'-' then (true, c ∷ [], cs) else (false, [], c ∷ cs)

-- The exponent: `read` is what stands in the place of its characters.
abbrev pub exponent_from : ℕ → Text → Option (ℕ × Text × Text)
exponent_from c cs =
    let (signed, sign, digits) = scan_sign cs in
    let (read, rest) = scan_decimals digits in
    if length (sign ++ read) == 0 then none else some (precision_of c, b'@' ∷ sign ++ read, rest)

-- whether there is an exponent, its precision, the characters read and the others
unfoldable pub scan_exponent : ℕ → Text → Option (Bool × ℕ × Text × Text)
scan_exponent radix [] = some (false, 0, [], [])
scan_exponent radix (c ∷ cs) =
    if not (is_exponent c)
    then some (false, 0, [], c ∷ cs)
    else if not (radix == 10)
    then none
    else Option.map (λ (p, read, rest). (true, p, read, rest)) (exponent_from c cs)

-- `*ptr == c`
abbrev pub starts_with : ℕ → Text → Bool
starts_with c [] = false
starts_with c (d ∷ cs) = d == c

abbrev pub is_lone_dot : Text → Bool
is_lone_dot (c ∷ []) = c == b'.'
is_lone_dot _ = false

abbrev pub then_option : {A B : Type 0} → Option A → (A → Option B) → Option B
then_option none f = none
then_option (some a) f = f a

-- `_ston_parse_real`; `none` is the flag 0.
unfoldable pub ston_parse_real : ℕ → Text → Option Parsed
unfolding scan_digits scan_pounds scan_exponent
ston_parse_real radix txt =
    let (signed, sign, digits) = scan_sign txt in
    then_option (scan_digits radix false digits) λ (decimal, read, rest).
      let iunit = length read == 0 in
      if is_lone_dot read || iunit && not (starts_with b'i' rest)
      then none
      else then_option (scan_pounds radix decimal false rest) λ (decimal', pound, read', rest').
        then_option (scan_exponent radix rest') λ (exponent, precision, read'', rest'').
          some (record {
            flags = record {
              iunit = iunit;
              signed = signed;
              decimal = decimal' || exponent;
              pound = pound;
              precision = precision;
            };
            read = sign ++ read ++ read' ++ read'';
            rest = rest'';
          })
