-- ===== src/Runtime/Number/Parse.antt =====
-- `_ston` and `string->number` of src/runtime/number.c.
pub mod Ends
pub mod Decimal
use llscheme.Base.{
  ℕ, zero, suc, ◌+◌, ◌-◌, ◌*◌, Bool, true, false, not, ◌&&◌, ◌||◌, Option, none, some, List, [],
  ◌∷◌, ◌++◌, Text, codes, length, ltb, leb, ◌==◌, if◌then◌else◌,
}
use mathlib.Core.Option
use llscheme.Base.Outcome.{Outcome, ok, fault, diverge, out_of_bounds}
use llscheme.Runtime.Small.{modulus, below_zero}
use llscheme.Runtime.Number.{
  Gmp, Real, small, big, rational, inexact, ◌>>=◌, ◌>>◌, re_promote, re_canonicalize,
}
use llscheme.Runtime.Number.Objects.{Number, new_number, update_re, update_im, count_args, stop}
use llscheme.Runtime.Number.Scan.{
  position, at_most, ston_isdigit, is_decimal, Scanned, with_char, scan_digits, scan_pounds,
  scan_decimals, precision_of, is_exponent, scan_sign, exponent_from, scan_exponent, starts_with,
  is_lone_dot, then_option, ston_parse_real, Flags, Parsed,
}

-- The prefixes of `_ston`: the exactness and the radix that they ask for, and the text behind them.
abbrev pub exactness_letter : ℕ → Option Bool
exactness_letter c = if c == b'i' then some false else if c == b'e' then some true else none

abbrev pub radix_letter : ℕ → Option ℕ
radix_letter c =
    if c == b'b'
    then some 2
    else if c == b'o'
    then some 8
    else if c == b'd'
    then some 10
    else if c == b'x'
    then some 16
    else none

-- a prefix with the letter `c`, unless there has been one of its kind
abbrev pub on_prefix :
    {A : Type 0} → Option Bool → Option ℕ → ℕ → (Option Bool → Option ℕ → Option A) → Option A
on_prefix exactness radix c next = elim (exactness_letter c) [
  | some e ↦ elim exactness [ none ↦ next (some e) radix | some _ ↦ none ]
  | none ↦ elim (radix_letter c) [
    | some r ↦ elim radix [ none ↦ next exactness (some r) | some _ ↦ none ]
    | none ↦ none
  ]
]

unfoldable pub prefixes : Option Bool → Option ℕ → Text → Option (Option Bool × Option ℕ × Text)
prefixes exactness radix [] = some (exactness, radix, [])
prefixes exactness radix (c ∷ []) = if c == b'#' then none else some (exactness, radix, c ∷ [])
prefixes exactness radix (c ∷ d ∷ cs) =
    let next = on_prefix exactness radix d (λ e r. prefixes e r cs) in
    if c == b'#' then next else some (exactness, radix, c ∷ d ∷ cs)

-- One number of a complex one: whether it is a fraction, with the flags of the numerator.
pub record Part : Type 0 where
  pub first : Flags
  pub fraction : Bool
  pub text : Text
  pub behind : Text

abbrev pub with_denominator : Parsed → Option Parsed → Option Part
with_denominator p none = none
with_denominator p (some q) =
    if p.flags.decimal || q.flags.signed || q.flags.decimal
    then none
    else some (record {
      first = p.flags;
      fraction = true;
      text = p.read ++ codes "/" ++ q.read;
      behind = q.rest;
    })

abbrev pub fraction_of : ℕ → Parsed → Text → Option Part
fraction_of radix p [] =
    some (record { first = p.flags; fraction = false; text = p.read; behind = [] })
fraction_of radix p (c ∷ cs) =
    if c == b'/'
    then with_denominator p (ston_parse_real radix cs)
    else some (record { first = p.flags; fraction = false; text = p.read; behind = c ∷ cs })

unfoldable pub parse_part : ℕ → Text → Option Part
unfolding ston_parse_real
parse_part radix txt = then_option (ston_parse_real radix txt) λ p. fraction_of radix p p.rest

-- a text without a plus sign in front
abbrev pub without_plus : Text → Text
without_plus [] = []
without_plus (c ∷ cs) = if c == b'+' then cs else c ∷ cs

-- The functions of GMP that read a text in a radix, a float with a precision; a text that they do not take
-- gives zero. `set_decimal` stands for `_lsrt_mpq_set_decimal`.
pub record Readers (g : Gmp) : Type 0 where
  pub z_set_str : Text → ℕ → g.Z
  pub q_set_str : Text → ℕ → g.Q
  pub f_set_str : ℕ → Text → ℕ → g.F
  pub set_decimal : Text → ℕ → Outcome g.Q

module _ {g : Gmp} (readers : Readers g) where
  -- a decimal number, made exact only where that is asked for
  abbrev pub read_decimal : Option Bool → ℕ → ℕ → Text → Outcome (Real g)
  read_decimal (some true) radix precision txt =
      readers.set_decimal txt radix >>= λ q. ok (rational q)
  read_decimal _ radix precision txt = ok (inexact (readers.f_set_str precision txt radix))

  -- the switch of `_ston`, by the type
  unfoldable pub read_type : Option Bool → ℕ → Part → Outcome (Real g)
  read_type exactness radix p =
      let txt = without_plus p.text in
      let unit = small (if starts_with b'+' p.text then 1 else modulus - 1) in
      if starts_with b'i' p.behind && p.first.iunit
      then ok unit
      else if p.first.decimal
      then read_decimal exactness radix p.first.precision txt
      else if p.fraction
      then ok (rational (readers.q_set_str txt radix))
      else ok (big (readers.z_set_str txt radix))

  -- whether the number is made inexact
  abbrev pub to_inexact : Option Bool → Bool → Bool
  to_inexact (some true) pound = false
  to_inexact (some false) pound = true
  to_inexact none pound = pound

  unfoldable pub read_part : Option Bool → ℕ → Part → Outcome (Real g)
  unfolding read_type re_promote re_canonicalize
  read_part exactness radix p = do
    x ← read_type exactness radix p
    re_canonicalize g (if to_inexact exactness p.first.pound then re_promote g x 3 else x)

  -- What `_ston` makes of its object: a number, or #f.
  abbrev pub Ston : Type 0
  Ston = Outcome (Option (Number g))

  -- the end of a round, with the rest of the text
  abbrev pub go_on : (Text → Ston) → Number g → Text → Ston
  go_on next n [] = ok (some n)
  go_on next n (c ∷ cs) = next (c ∷ cs)

  -- an imaginary part, which needs a sign, behind it the `i`
  abbrev pub imaginary : (Number g → Text → Ston) → Number g → Part → Text → Real g → Ston
  imaginary next n p [] x = ok none
  imaginary next n p (c ∷ cs) x =
      if p.first.signed then go_on (next (update_im g n x)) (update_im g n x) cs else ok none

  -- A round of `_ston` behind its parse: `im` and `re` tell whether such a part is still allowed.
  unfoldable pub ston_part :
      (Bool → Bool → Number g → Text → Ston)
      → Option Bool
      → ℕ
      → Bool
      → Bool
      → Number g
      → Option Part
      → Ston
  unfolding read_part
  ston_part next exactness radix re im n none = ok none
  ston_part next exactness radix re im n (some p) =
      let is_im = starts_with b'i' p.behind in
      let x = read_part exactness radix p in
      let as_im = x >>= imaginary (λ m txt. next re false m txt) n p p.behind in
      let as_re =
        x >>= λ y. go_on (λ txt. next false im (update_re g n y) txt) (update_re g n y) p.behind in
      if is_im && not im || not is_im && not re
      then ok none
      else if is_im && p.first.iunit && not p.first.signed
      then ok none
      else if is_im
      then as_im
      else as_re

  -- the jumps to `restart`
  unfoldable pub ston_from : ℕ → Option Bool → ℕ → Bool → Bool → Number g → Text → Ston
  unfolding ston_part parse_part
  ston_from zero exactness radix re im n txt = diverge
  ston_from (suc k) exactness radix re im n txt =
      ston_part (λ re' im' m rest. ston_from k exactness radix re' im' m rest) exactness radix re im
        n (parse_part radix txt)

  abbrev pub radix_or : ℕ → Option ℕ → ℕ
  radix_or defradix none = defradix
  radix_or defradix (some r) = r

  abbrev pub behind_prefixes : ℕ → Number g → ℕ → Option (Option Bool × Option ℕ × Text) → Ston
  behind_prefixes k n defradix none = ok none
  behind_prefixes k n defradix (some (exactness, radix, txt)) =
      ston_from k exactness (radix_or defradix radix) true true n txt

  -- `_ston` on the object `n`
  unfoldable pub ston : ℕ → Number g → Text → ℕ → Ston
  unfolding ston_from prefixes
  ston k n txt defradix = behind_prefixes k n defradix (prefixes none none txt)

-- the arguments of `string->number`
pub data StonArg : Type 0 where
  a_string : Text → StonArg
  a_small_number : ℕ → StonArg
  another : StonArg

abbrev pub radix_arg : List StonArg → ℕ
radix_arg (a_small_number r ∷ []) = r
radix_arg _ = 10

module _ {g : Gmp} (readers : Readers g) where
  -- `lsrt_string_p`, the test for an empty string, and the rest
  unfoldable pub read_string : ℕ → List StonArg → Outcome (Option (Number g))
  unfolding ston
  read_string k [] = fault out_of_bounds
  read_string k (a_string [] ∷ args) = ok none
  read_string k (a_string (c ∷ cs) ∷ args) =
      ston readers k (new_number g 0) (c ∷ cs) (radix_arg args)
  read_string k (_ ∷ args) = stop (codes "expected string")

  unfoldable pub builtin_string2number : ℕ → List StonArg → Outcome (Option (Number g))
  unfolding read_string count_args
  builtin_string2number k args = do count_args 1 2 (length args); read_string k args
