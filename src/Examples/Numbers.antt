-- ===== src/Examples/Numbers.antt =====
-- Arithmetic over a GMP whose integers are ℤ. Its rationals and floats hold nothing.
use llscheme.Base.{
  ℕ, zero, suc, ◌-◌, ◌<◌, ◌≡◌, refl, Bool, true, false, ◌&&◌, ltb, leb, none, some, [], ◌∷◌, ℤ, pos,
  negsuc, inl, inr, arith,
}
use llscheme.Base.Signed.{◌+ℤ◌, ◌-ℤ◌, ◌*ℤ◌, above, below, opposite_ℤ}
use llscheme.Base.Outcome.{ok, fault, signed_overflow}
use llscheme.Runtime.Small.{modulus, sign_bit, add_overflow_p, si_to_ui}
use llscheme.Runtime.Number.{
  Sign, negative, equal, positive, Operations, Gmp, small, big, re_promote, promoted,
  re_canonicalize, canonicalize_z,
}
use llscheme.Runtime.Number.Arith.{
  plus, divide, re_arith2, mul_overflow_p, arith_small, after_small, divide_small, arith_gmp,
  for_division, by_types, with_int, arith_case,
}
use llscheme.Runtime.Number.Objects.{Number, a_number}
use llscheme.Runtime.Number.Comparisons.{lt, order}
use llscheme.Runtime.Number.Builtins.{builtin_plus, builtin_minus}
use llscheme.Runtime.Number.Multiply.{int, TooBig, Fit, mul_overflow_p-Fit}
use llscheme.Runtime.Number.Exact.{
  IntegerLaws, adds, Integer, as_small, as_big, Exactly, re_arith2-Exactly,
}
use llscheme.Runtime.Number.Divide.{Quotient, divide_small-Quotient}
use llscheme.Base.{codes}
use llscheme.Runtime.Number.Objects.{new_number}
use llscheme.Runtime.Number.Parse.{Readers, ston, a_string, builtin_string2number}
use llscheme.Runtime.Number.Parse.Ends.{Ends, returns, ston-Ends}
use llscheme.Runtime.Number.Parse.Decimal.{value_from, builtin_string2number-Whole}
use llscheme.Runtime.Number.Ordered.{
  sign_between, in_order, difference_fits, right_too_big, one_near, more_near, OrderLaws,
  order-in_order,
}
use llscheme.Runtime.Number.Sums.{
  Whole, Integers, no_integers, one_integer, WholeResult, fold, difference, builtin_plus-Whole,
  builtin_minus-Whole,
}

abbrev is_int : ℤ → Bool
is_int x = ltb (above x) sign_bit && leb (below x) sign_bit

abbrev pattern_of : ℤ → ℕ
pattern_of (pos n) = n
pattern_of (negsuc n) = modulus - suc n

abbrev sign : ℤ → Sign
sign (pos zero) = equal
sign (pos (suc n)) = positive
sign (negsuc n) = negative

abbrev integers : Operations ℤ ℤ
integers = record { add = ◌+ℤ◌; sub = ◌-ℤ◌; mul = ◌*ℤ◌; div = λ x y. some x }

abbrev integers_ui : Operations ℤ ℕ
integers_ui = record {
  add = λ x u. x +ℤ pos u;
  sub = λ x u. x -ℤ pos u;
  mul = λ x u. x *ℤ pos u;
  div = λ x u. some x;
}

abbrev idle : (U : Type 0) → Operations (Unit {0}) U
idle U = record { add = λ x y. tt; sub = λ x y. tt; mul = λ x y. tt; div = λ x y. some tt }

abbrev integer_gmp : Gmp
integer_gmp = record {
  Z = ℤ;
  Q = Unit {0};
  F = Unit {0};
  z_set_si = int;
  z_get_si = pattern_of;
  z_fits_sint_p = is_int;
  z = integers;
  z_ui = integers_ui;
  z_products = record { addmul = λ x y z. x +ℤ y *ℤ z; submul = λ x y z. x -ℤ y *ℤ z; mul = ◌*ℤ◌ };
  ui_products = record {
    addmul = λ x y u. x +ℤ y *ℤ pos u;
    submul = λ x y u. x -ℤ y *ℤ pos u;
    mul = λ x u. x *ℤ pos u;
  };
  z_neg = opposite_ℤ;
  z_divisible_p = λ x y. true;
  z_divisible_ui_p = λ x u. true;
  z_sgn = sign;
  z_cmp = sign_between;
  z_cmp_si = λ x v. sign_between x (int v);
  z_set_q = λ q. pos 0;
  q_set_si = λ v. tt;
  q_set_z = λ x. tt;
  q_numref = λ q. pos 0;
  q_denref = λ q. pos 1;
  q_with_num = λ q x. q;
  q_with_den = λ q x. q;
  q_canonicalize = some;
  q = idle (Unit {0});
  q_neg = λ q. q;
  q_sgn = λ q. equal;
  q_cmp = λ q r. equal;
  q_cmp_si = λ q v. equal;
  f_set_si = λ v. tt;
  f_set_z = λ x. tt;
  f_set_q = λ q. tt;
  f = idle (Unit {0});
  f_ui = idle ℕ;
  f_neg = λ x. x;
  f_sgn = λ x. equal;
  f_cmp = λ x y. equal;
  f_cmp_si = λ x v. equal;
  f_cmp_ui = λ x u. equal;
  f_integer_p = λ x. true;
}

int-pattern_of : (x : ℤ) → is_int x ≡ true → (pattern_of x < modulus) × (int (pattern_of x) ≡ x)
unfolding int
int-pattern_of (pos n) e = (ground arith, ground arith)
int-pattern_of (negsuc n) e = (ground arith, ground arith)

no_int : (x : ℤ) → is_int x ≡ false → TooBig x
no_int (pos n) e = inl (ground arith)
no_int (negsuc n) e = inr (ground arith)

abbrev integer_laws : IntegerLaws integer_gmp
integer_laws = record {
  value = λ x. x;
  set_si = λ v l. refl;
  get_si = int-pattern_of;
  no_int = no_int;
  add = λ x y. refl;
  sub = λ x y. refl;
  mul = λ x y. refl;
  add_ui = λ x u. refl;
  sub_ui = λ x u. refl;
  mul_ui = λ x u. refl;
  neg = λ x. refl;
}

mul_overflow_p-Fit_example : Fit (int 65536 *ℤ int 4294934528) (mul_overflow_p 65536 4294934528)
mul_overflow_p-Fit_example = mul_overflow_p-Fit 65536 4294934528 (omega arith) (omega arith)

largest : Integer integer_laws (small 2147483647) (pos 2147483647)
unfolding int
largest = as_small 2147483647 (omega arith) refl

re_arith2-Exactly_example :
    Exactly integer_laws
      (re_arith2 integer_gmp plus (small 2147483647) (small 2147483647))
      (pos 2147483647 +ℤ pos 2147483647)
re_arith2-Exactly_example = re_arith2-Exactly integer_laws adds largest largest

abbrev largest_number : Number integer_gmp
largest_number = record { re = small 2147483647; im = none }

largest-Whole : Whole integer_laws largest_number (pos 2147483647)
largest-Whole = record { real = largest; alone = refl }

two_largest :
    Integers integer_laws
      (a_number largest_number ∷ a_number largest_number ∷ [])
      (pos 2147483647 ∷ pos 2147483647 ∷ [])
two_largest = one_integer largest-Whole (one_integer largest-Whole no_integers)

builtin_plus-Whole_example :
    WholeResult integer_laws
      (builtin_plus integer_gmp (a_number largest_number ∷ a_number largest_number ∷ []))
      (fold ◌+ℤ◌ (pos 0) (pos 2147483647 ∷ pos 2147483647 ∷ []))
builtin_plus-Whole_example = builtin_plus-Whole integer_laws two_largest

builtin_minus-Whole_example :
    WholeResult integer_laws
      (builtin_minus integer_gmp
        (a_number largest_number ∷ a_number largest_number ∷ a_number largest_number ∷ []))
      (difference (pos 2147483647) (pos 2147483647 ∷ pos 2147483647 ∷ []))
builtin_minus-Whole_example = builtin_minus-Whole integer_laws largest-Whole two_largest

integer_orders : OrderLaws integer_laws
integer_orders = record { cmp = λ x y. refl; cmp_si = λ x v l. refl }

abbrev beyond_largest : Number integer_gmp
beyond_largest = record { re = big (pos 4294967296); im = none }

three-Integers :
    Integers integer_laws
      (a_number (new_number integer_gmp 7) ∷ a_number largest_number ∷ a_number beyond_largest ∷ [])
      (pos 7 ∷ pos 2147483647 ∷ pos 4294967296 ∷ [])
unfolding int
three-Integers =
    one_integer (record { real = as_small 7 (omega arith) refl; alone = refl })
      (one_integer largest-Whole (
        one_integer
          (record { real = as_big (pos 4294967296) (inl (omega arith)) refl; alone = refl })
          no_integers))

order-in_order_example :
    order integer_gmp lt
      (a_number (new_number integer_gmp 7) ∷ a_number largest_number ∷ a_number beyond_largest ∷ [])
    ≡ ok (in_order lt (pos 7 ∷ pos 2147483647 ∷ pos 4294967296 ∷ []))
order-in_order_example = order-in_order integer_laws integer_orders lt three-Integers (
    more_near (difference_fits (omega arith) (omega arith))
      (more_near (right_too_big (inl (omega arith))) (one_near (pos 4294967296))))

divide_small-Quotient_example : Quotient 4294967289 2 (divide_small 4294967289 2)
divide_small-Quotient_example = divide_small-Quotient 4294967289 2 (omega arith) (omega arith)

abbrev integer_readers : Readers integer_gmp
integer_readers = record {
  z_set_str = λ txt radix. pos (value_from 0 txt);
  q_set_str = λ txt radix. tt;
  f_set_str = λ precision txt radix. tt;
  set_decimal = λ txt radix. ok tt;
}

ston-Ends_example : Ends (ston integer_readers 3 (new_number integer_gmp 0) (codes "1+2i+3") 10)
ston-Ends_example =
    ston-Ends integer_readers (λ txt radix. returns tt) 3 (new_number integer_gmp 0)
      (codes "1+2i+3") 10 (omega arith)

builtin_string2number-Whole_example :
    (n : Number integer_gmp) × (builtin_string2number integer_readers 1
        (a_string (codes "1234567890") ∷ [])
      ≡ ok (some n))
    × Whole integer_laws n (pos (value_from 0 (codes "1234567890")))
builtin_string2number-Whole_example =
    builtin_string2number-Whole integer_laws integer_readers (λ txt e. refl) b'1'
      (codes "234567890") 1 refl (omega arith)

-- a sum that overflows an `int`
sum_of_largest :
    re_arith2 integer_gmp plus (small 2147483647) (small 2147483647) ≡ ok (big (pos 4294967294))
unfolding re_arith2 arith_small add_overflow_p after_small arith_gmp re_promote promoted
    for_division by_types with_int arith_case si_to_ui re_canonicalize canonicalize_z int ◌+ℤ◌
sum_of_largest = refl

-- The quotient of INT_MIN and -1 is no `int`.
quotient_of_smallest :
    re_arith2 integer_gmp divide (small 2147483648) (small 4294967295) ≡ fault signed_overflow
unfolding re_arith2 arith_small divide_small
quotient_of_smallest = refl
