-- ===== src/Codegen/Numbers.antt =====
-- Numbers that `numberFitsInt32` lets through.
use llscheme.Base.{
  ℕ, zero, suc, ◌+◌, ◌*◌, ◌-◌, ◌≤◌, ◌<◌, ◌≡◌, refl, Bool, true, false, Bool-cases, inl, inr, [],
  ◌∷◌, ◌&&◌, arith, Text, length, ltb, int_max,
}
use llscheme.Lexer.Chars.{is_decimal}
use llscheme.Codegen.{all_digits, number_fits_int32, atoi, atoi_from}

-- ten times as much for each digit
scaled : ℕ → ℕ → ℕ
scaled zero b = b
scaled (suc k) b = scaled k (b * 10)

scaled-grows : (k b : ℕ) → b ≤ scaled k b
unfolding scaled
scaled-grows zero b = omega arith
scaled-grows (suc k) b = omega (arith, scaled-grows k (b * 10))

digit-below : (c : ℕ) → is_decimal c ≡ true → c - 48 < 10
unfolding is_decimal
digit-below c h = ground arith

both : (a b : Bool) → (a && b) ≡ true → (a ≡ true) × (b ≡ true)
both true true h = (refl, refl)
both true false h = cc
both false b h = cc

atoi_from-bound :
    (s : Text) (k n b : ℕ) → all_digits s ≡ true → length s ≤ k → n < b → atoi_from n s < scaled k b
unfolding atoi_from all_digits scaled
atoi_from-bound [] k n b h l m = omega (arith, scaled-grows k b)
atoi_from-bound (c ∷ s) zero n b h l m = absurd (omega arith)
atoi_from-bound (c ∷ s) (suc k) n b h l m =
    let (first, rest) = both (is_decimal c) (all_digits s) h in
    atoi_from-bound s k (n * 10 + (c - 48)) (b * 10) rest (omega arith)
      (omega (arith, digit-below c first))

-- A number that numberFitsInt32 lets through has at most nine characters, all digits, and its value is at
-- most INT_MAX.
pub number_fits_int32-bound :
    (val : Text)
    → number_fits_int32 val ≡ true
    → (length val ≤ 9) × ((all_digits val ≡ true) × (atoi val ≤ int_max))
unfolding number_fits_int32 atoi
number_fits_int32-bound val h = elim (Bool-cases (ltb 9 (length val))) [
  | inl long ↦ absurd (ground arith)
  | inr short ↦
      let digits : all_digits val ≡ true = ground arith in
      let few : length val ≤ 9 = ground arith in
      let bound : atoi_from 0 val < scaled 9 1 =
        atoi_from-bound val 9 0 1 digits few (omega arith) in
      (few, (digits, unfold scaled in omega arith))
]
