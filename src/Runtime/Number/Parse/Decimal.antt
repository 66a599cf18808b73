-- ===== src/Runtime/Number/Parse/Decimal.antt =====
-- `string->number` of src/runtime/number.c on decimal digits.
use llscheme.Base.{
  ℕ, zero, suc, ◌+◌, ◌*◌, ◌-◌, ◌<◌, ◌≡◌, refl, ap, ◌∙◌, Bool, true, false, ◌&&◌, ◌||◌, none, some,
  [], ◌∷◌, ◌++◌, append-nil, Text, arith, ◌==◌, pos, length,
}
use llscheme.Base.Outcome.{ok}
use llscheme.Runtime.Number.{Gmp, re_canonicalize}
use llscheme.Runtime.Utils.{check_args_count}
use llscheme.Runtime.Number.Objects.{Number, count_args}
use llscheme.Runtime.Number.Exact.{IntegerLaws, canonicalize_z-Integer}
use llscheme.Runtime.Number.Sums.{Whole}
use llscheme.Runtime.Number.Scan.{
  ston_isdigit, is_decimal, Flags, scan_digits, scan_pounds, scan_exponent, scan_sign, is_lone_dot,
  ston_parse_real,
}
use llscheme.Runtime.Number.Parse.{
  prefixes, Part, parse_part, without_plus, Readers, read_type, read_part, ston_part, ston_from,
  ston, a_string, read_string, builtin_string2number,
}

abbrev pub all_decimal : Text → Bool
all_decimal [] = true
all_decimal (c ∷ cs) = is_decimal c && all_decimal cs

digit : (c : ℕ) → is_decimal c ≡ true → ston_isdigit 10 c ≡ true
unfolding ston_isdigit
digit c e = ground arith

no_dot : (c : ℕ) → is_decimal c ≡ true → (c == b'.') ≡ false
no_dot c e = ground arith

scan_digits-decimal :
    (txt : Text) → all_decimal txt ≡ true → scan_digits 10 false txt ≡ some (false, txt, [])
unfolding scan_digits
scan_digits-decimal [] e = refl
scan_digits-decimal (c ∷ cs) e =
    let h : is_decimal c ≡ true = ground arith in
    rw (digit c h, no_dot c h, scan_digits-decimal cs (ground arith)) refl

-- the value of decimal digits, with `n` from those in front
abbrev pub value_from : ℕ → Text → ℕ
value_from n [] = n
value_from n (c ∷ cs) = value_from (10 * n + (c - b'0')) cs

abbrev plain : Flags
plain = record { iunit = false; signed = false; decimal = false; pound = false; precision = 0 }

abbrev digits_part : Text → Part
digits_part txt = record { first = plain; fraction = false; text = txt; behind = [] }

scan_sign-decimal :
    (c : ℕ) (cs : Text) → is_decimal c ≡ true → scan_sign (c ∷ cs) ≡ (false, [], c ∷ cs)
scan_sign-decimal c cs e = let h : (c == b'+' || c == b'-') ≡ false = ground arith in rw h refl

lone_dot-decimal : (c : ℕ) (cs : Text) → is_decimal c ≡ true → is_lone_dot (c ∷ cs) ≡ false
lone_dot-decimal c [] e = no_dot c e
lone_dot-decimal c (d ∷ cs) e = refl

parse_part-decimal :
    (c : ℕ) (cs : Text)
    → all_decimal (c ∷ cs) ≡ true
    → parse_part 10 (c ∷ cs) ≡ some (digits_part (c ∷ cs))
unfolding parse_part ston_parse_real scan_pounds scan_exponent
parse_part-decimal c cs e =
    let h : is_decimal c ≡ true = ground arith in
    let some_digit : (length (c ∷ cs) == 0) ≡ false = ground arith in
    rw
      (
        scan_sign-decimal c cs h,
        scan_digits-decimal (c ∷ cs) e,
        lone_dot-decimal c cs h,
        some_digit,
      )
      (ap (λ t. some (digits_part t)) (append-nil ((c ∷ cs) ++ []) ∙ append-nil (c ∷ cs)))

prefixes-decimal :
    (c : ℕ) (cs : Text)
    → is_decimal c ≡ true
    → prefixes none none (c ∷ cs) ≡ some (none, none, c ∷ cs)
unfolding prefixes
prefixes-decimal c [] e = let h : (c == b'#') ≡ false = ground arith in rw h refl
prefixes-decimal c (d ∷ cs) e = let h : (c == b'#') ≡ false = ground arith in rw h refl

without_plus-decimal : (c : ℕ) (cs : Text) → is_decimal c ≡ true → without_plus (c ∷ cs) ≡ c ∷ cs
without_plus-decimal c cs e = let h : (c == b'+') ≡ false = ground arith in rw h refl

module _ {g : Gmp} (laws : IntegerLaws g) (readers : Readers g)
    (z_set_str-value : (txt : Text)
      → all_decimal txt ≡ true
      → laws.value (readers.z_set_str txt 10) ≡ pos (value_from 0 txt)) where
  -- Over a GMP that reads decimal digits as their value and whose integers are exact, string->number of a
  -- text of decimal digits, at least one, is the integer that they spell, an int exactly if its value is
  -- one, and takes one round.
  pub builtin_string2number-Whole :
      (c : ℕ) (cs : Text) (k : ℕ)
      → all_decimal (c ∷ cs) ≡ true
      → 0 < k
      → (n : Number g) × (builtin_string2number readers k (a_string (c ∷ cs) ∷ []) ≡ ok (some n))
        × Whole laws n (pos (value_from 0 (c ∷ cs)))
  unfolding builtin_string2number read_string count_args ston ston_from ston_part read_part
      read_type re_canonicalize check_args_count
  builtin_string2number-Whole c cs zero e l = absurd (omega (arith, l))
  builtin_string2number-Whole c cs (suc k) e l =
      let h : is_decimal c ≡ true = ground arith in
      rw (prefixes-decimal c cs h, parse_part-decimal c cs e, without_plus-decimal c cs h)
        (
          _,
          refl,
          record {
            real = canonicalize_z-Integer laws _ (z_set_str-value (c ∷ cs) e);
            alone = refl;
          },
        )
