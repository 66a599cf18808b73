-- ===== src/Runtime/Small/Overflow.antt =====
-- The overflow tests against the sum and the difference of the values.
use llscheme.Base.{
  ℕ, ◌+◌, ◌-◌, ◌≤◌, ◌<◌, ◌≡◌, ◌⊎◌, refl, Bool-cases, Option-cases, inl, inr, ltb, ◌==◌, arith,
  if◌then◌else◌, Option, none, some,
}
use llscheme.Runtime.Small.{
  modulus, sign_bit, below_zero, add_overflow_p, sub_overflow_p, si_to_ui, order2_small,
}

-- The value of an `int`, 2 ^ 31 added.
unfoldable pub biased : ℕ → ℕ
biased a = if ltb a sign_bit then a + sign_bit else a - sign_bit

-- A result that should have the value `v`, where `v` has `2 ^ 32` added: none if the value is no `int`.
pub data Exact (v : ℕ) : Option ℕ → Type 0 where
  too_small : v < sign_bit → Exact v none
  too_large : sign_bit + modulus ≤ v → Exact v none
  fits : (t : ℕ) → t < modulus → biased t + sign_bit ≡ v → Exact v (some t)

add-none :
    (a b : ℕ)
    → a < modulus
    → b < modulus
    → add_overflow_p a b ≡ none
    → sign_bit ≤ biased a + biased b
    → sign_bit + modulus ≤ biased a + biased b
unfolding add_overflow_p biased
add-none a b l m e n = ground arith

add-some :
    (a b t : ℕ)
    → a < modulus
    → b < modulus
    → add_overflow_p a b ≡ some t
    → (t < modulus) × (biased t + sign_bit ≡ biased a + biased b)
unfolding add_overflow_p biased
add-some a b t l m e = (ground arith, ground arith)

sub-none :
    (a b : ℕ)
    → a < modulus
    → b < modulus
    → sub_overflow_p a b ≡ none
    → sign_bit ≤ biased a + modulus - biased b
    → sign_bit + modulus ≤ biased a + modulus - biased b
unfolding sub_overflow_p biased
sub-none a b l m e n = ground arith

sub-some :
    (a b t : ℕ)
    → a < modulus
    → b < modulus
    → sub_overflow_p a b ≡ some t
    → (t < modulus) × (biased t + sign_bit ≡ biased a + modulus - biased b)
unfolding sub_overflow_p biased
sub-some a b t l m e = (ground arith, ground arith)

decided :
    (v : ℕ) (o : Option ℕ)
    → (o ≡ none → sign_bit ≤ v → sign_bit + modulus ≤ v)
    → ((t : ℕ) → o ≡ some t → (t < modulus) × (biased t + sign_bit ≡ v))
    → Exact v o
decided v none h k = elim (Bool-cases (ltb v sign_bit)) [
  | inl small ↦ too_small (ground arith)
  | inr other ↦ too_large (h refl (ground arith))
]
decided v (some t) h k = let (small, same) = k t refl in fits t small same

-- __add_overflow_p reports an overflow exactly if the sum of the values is no int, and otherwise stores
-- it.
pub add_overflow_p-Exact :
    (a b : ℕ) → a < modulus → b < modulus → Exact (biased a + biased b) (add_overflow_p a b)
add_overflow_p-Exact a b l m =
    decided (biased a + biased b) (add_overflow_p a b) (add-none a b l m)
      (λ t e. add-some a b t l m e)

-- __sub_overflow_p reports an overflow exactly if the difference of the values is no int, and
-- otherwise stores it.
pub sub_overflow_p-Exact :
    (a b : ℕ)
    → a < modulus
    → b < modulus
    → Exact (biased a + modulus - biased b) (sub_overflow_p a b)
sub_overflow_p-Exact a b l m =
    decided (biased a + modulus - biased b) (sub_overflow_p a b) (sub-none a b l m)
      (λ t e. sub-some a b t l m e)

-- __si_to_ui gives the absolute value, INT_MIN included, with its sign.
pub si_to_ui-value :
    (si : ℕ)
    → si < modulus
    → ((biased si ≡ sign_bit + (si_to_ui si).1) × ((si_to_ui si).0 ≤ 1))
      ⊎ ((biased si + (si_to_ui si).1 ≡ sign_bit) × ((si_to_ui si).0 ≡ modulus - 1))
unfolding si_to_ui biased
si_to_ui-value si l = elim (Bool-cases (below_zero si)) [
  | inl neg ↦ inr (ground arith, ground arith)
  | inr other ↦ inl (ground arith, ground arith)
]

-- the order of two values: 1, 0 or the pattern of -1
unfoldable pub ordered : ℕ → ℕ → ℕ
ordered x y = if ltb x y then modulus - 1 else if x == y then 0 else 1

order2_small-some :
    (a b t : ℕ)
    → a < modulus
    → b < modulus
    → sub_overflow_p a b ≡ some t
    → order2_small a b ≡ ordered (biased a) (biased b)
unfolding order2_small sub_overflow_p ordered biased
order2_small-some a b t l m e = ground arith

order2_small-none :
    (a b : ℕ)
    → a < modulus
    → b < modulus
    → sub_overflow_p a b ≡ none
    → order2_small a b ≡ ordered (biased b) (biased a)
unfolding order2_small sub_overflow_p ordered biased
order2_small-none a b l m e = ground arith

-- _re_order2 on two small numbers is their order if their difference is an int, and the opposite order if
-- it is not.
pub order2_small-order :
    (a b : ℕ)
    → a < modulus
    → b < modulus
    → ((sub_overflow_p a b ≡ none) × (order2_small a b ≡ ordered (biased b) (biased a)))
      ⊎ (((t : ℕ) × (sub_overflow_p a b ≡ some t))
          × (order2_small a b ≡ ordered (biased a) (biased b)))
order2_small-order a b l m = elim (Option-cases (sub_overflow_p a b)) [
  | inl e ↦ inl (e, order2_small-none a b l m e)
  | inr (t, e) ↦ inr ((t, e), order2_small-some a b t l m e)
]
