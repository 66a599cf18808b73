-- ===== src/Examples/Integers.antt =====
-- Small numbers at the ends of their range: src/runtime/include/number.h.
use llscheme.Base.{ℕ, ◌+◌, ◌-◌, ◌≡◌, ◌⊎◌, refl, arith, none, some}
use llscheme.Runtime.Small.{modulus, add_overflow_p, sub_overflow_p, order2_small}
use llscheme.Runtime.Small.Overflow.{
  biased, Exact, ordered, add_overflow_p-Exact, order2_small-order,
}

add_overflow : add_overflow_p 2147483647 1 ≡ none
unfolding add_overflow_p
add_overflow = refl

sub_fits : sub_overflow_p 4294967295 2147483647 ≡ some 2147483648
unfolding sub_overflow_p
sub_fits = refl

-- INT_MAX is not less than -1.
order_reversed : order2_small 2147483647 4294967295 ≡ modulus - 1
unfolding order2_small
order_reversed = refl

add_overflow_p-Exact_example : Exact (biased 2147483647 + biased 1) (add_overflow_p 2147483647 1)
add_overflow_p-Exact_example = add_overflow_p-Exact 2147483647 1 (omega arith) (omega arith)

order2_small-order_example :
    ((sub_overflow_p 2147483647 4294967295 ≡ none)
      × (order2_small 2147483647 4294967295 ≡ ordered (biased 4294967295) (biased 2147483647)))
    ⊎ (((t : ℕ) × (sub_overflow_p 2147483647 4294967295 ≡ some t))
        × (order2_small 2147483647 4294967295 ≡ ordered (biased 2147483647) (biased 4294967295)))
order2_small-order_example = order2_small-order 2147483647 4294967295 (omega arith) (omega arith)
