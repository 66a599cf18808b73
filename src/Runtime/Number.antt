-- ===== src/Runtime/Number.antt =====
-- `struct ls_real` of src/runtime/include/number.h: the real numbers of the runtime, over GMP.
pub mod Arith
pub mod Order
pub mod Objects
pub mod Comparisons
pub mod Builtins
pub mod Ordered
pub mod Multiply
pub mod Exact
pub mod Sums
pub mod Divide
pub mod Scan
pub mod Parse
use llscheme.Base.{
  ℕ, zero, suc, Bool, true, false, not, ◌&&◌, Option, none, some, leb, ◌==◌, if◌then◌else◌,
}
use llscheme.Base.Outcome.{Outcome, ok, fault, and_then, division_by_zero}

-- the sign of a number, or of a difference
pub data Sign : Type 0 where
  negative equal positive : Sign

-- The operations of GMP on numbers of one type with an operand of another; a division by zero stops the
-- program, and is `none`.
pub record Operations (T U : Type 0) : Type 0 where
  pub add : T → U → T
  pub sub : T → U → T
  pub mul : T → U → T
  pub div : T → U → Option T

-- `mpz_addmul` and `mpz_submul`, which add to their first operand the product of the others or take it
-- away, and `mpz_mul`
pub record Products (Z U : Type 0) : Type 0 where
  pub addmul : Z → Z → U → Z
  pub submul : Z → Z → U → Z
  pub mul : Z → U → Z

-- What the runtime calls of GMP, on its integers, rationals and floats. An `int` is its bit pattern, and an
-- `unsigned int` a number below 2 ^ 32. An operation gives its result as a value, where GMP stores it.
pub record Gmp : Type 1 where
  pub Z : Type 0
  pub Q : Type 0
  pub F : Type 0
  pub z_set_si : ℕ → Z
  pub z_get_si : Z → ℕ
  pub z_fits_sint_p : Z → Bool
  pub z : Operations Z Z
  pub z_ui : Operations Z ℕ
  pub z_products : Products Z Z
  pub ui_products : Products Z ℕ
  pub z_neg : Z → Z
  pub z_divisible_p : Z → Z → Bool
  pub z_divisible_ui_p : Z → ℕ → Bool
  pub z_sgn : Z → Sign
  pub z_cmp : Z → Z → Sign
  pub z_cmp_si : Z → ℕ → Sign
  pub z_set_q : Q → Z
  pub q_set_si : ℕ → Q
  pub q_set_z : Z → Q
  pub q_numref : Q → Z
  pub q_denref : Q → Z
  pub q_with_num : Q → Z → Q
  pub q_with_den : Q → Z → Q
  pub q_canonicalize : Q → Option Q
  pub q : Operations Q Q
  pub q_neg : Q → Q
  pub q_sgn : Q → Sign
  pub q_cmp : Q → Q → Sign
  pub q_cmp_si : Q → ℕ → Sign
  pub f_set_si : ℕ → F
  pub f_set_z : Z → F
  pub f_set_q : Q → F
  pub f : Operations F F
  pub f_ui : Operations F ℕ
  pub f_neg : F → F
  pub f_sgn : F → Sign
  pub f_cmp : F → F → Sign
  pub f_cmp_si : F → ℕ → Sign
  pub f_cmp_ui : F → ℕ → Sign
  pub f_integer_p : F → Bool

-- By `type`: an `int`, and pointers to the numbers of GMP.
pub data Real (g : Gmp) : Type 0 where
  small : ℕ → Real g
  big : g.Z → Real g
  rational : g.Q → Real g
  inexact : g.F → Real g

infixl 5 ◌>>=◌ ◌>>◌
abbrev pub ◌>>=◌ : {A B : Type 0} → Outcome A → (A → Outcome B) → Outcome B
m >>= f = and_then m f

abbrev pub ◌>>◌ : {A B : Type 0} → Outcome A → Outcome B → Outcome B
m >> k = and_then m λ _. k

-- the result of a division
abbrev pub divided : {A B : Type 0} → (A → B) → Option A → Outcome B
divided f none = fault division_by_zero
divided f (some a) = ok (f a)

module _ (g : Gmp) where
  abbrev pub type_of : Real g → ℕ
  type_of (small v) = 0
  type_of (big z) = 1
  type_of (rational q) = 2
  type_of (inexact f) = 3

  -- The switches of `_re_promote`; a pair of types without a case leaves the number.
  unfoldable pub promoted : Real g → ℕ → Real g
  promoted (small v) zero = small v
  promoted (small v) (suc zero) = big (g.z_set_si v)
  promoted (small v) (suc (suc zero)) = rational (g.q_set_si v)
  promoted (small v) (suc (suc (suc n))) = inexact (g.f_set_si v)
  promoted (big z) (suc (suc zero)) = rational (g.q_set_z z)
  promoted (big z) (suc (suc (suc n))) = inexact (g.f_set_z z)
  promoted (rational q) (suc (suc (suc n))) = inexact (g.f_set_q q)
  promoted x _ = x

  -- `_re_promote`
  unfoldable pub re_promote : Real g → ℕ → Real g
  re_promote x dtype = if leb dtype (type_of x) then x else promoted x dtype

  -- the second half of `_re_canonicalize`, on an integer
  unfoldable pub canonicalize_z : g.Z → Real g
  canonicalize_z z = if g.z_fits_sint_p z then small (g.z_get_si z) else big z

  abbrev is_zero : Sign → Bool
  is_zero equal = true
  is_zero _ = false

  unfoldable pub canonicalize_q : g.Q → Real g
  unfolding canonicalize_z
  canonicalize_q q =
      if is_zero (g.z_cmp_si (g.q_denref q) 1) then canonicalize_z (g.z_set_q q) else rational q

  -- `_re_canonicalize`
  unfoldable pub re_canonicalize : Real g → Outcome (Real g)
  unfolding canonicalize_q canonicalize_z
  re_canonicalize (small v) = ok (small v)
  re_canonicalize (big z) = ok (canonicalize_z z)
  re_canonicalize (rational q) = divided canonicalize_q (g.q_canonicalize q)
  re_canonicalize (inexact f) = ok (inexact f)
