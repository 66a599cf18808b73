-- ===== src/Runtime/Strings/Append.antt =====
-- What `string-append` makes, and what `substring` writes.
use llscheme.Base.{
  ℕ, suc, ◌+◌, ◌-◌, ◌≤◌, ◌<◌, ◌≡◌, ◌≢◌, refl, ap, ◌∙◌, true, false, some, List, [], ◌∷◌, ◌++◌,
  append_assoc, append-nil, arith, ltb, ◌==◌, length, length-append, Text, pos,
}
use llscheme.Base.Outcome.{ok, fault, out_of_bounds}
use Prim.Native.Nat.{◌%◌}
use llscheme.Runtime.Small.{modulus, sign_bit, below_zero}
use llscheme.Runtime.Heap.{Object, Heap, object_at, new_object}
use llscheme.Runtime.Heap.Laws.{load-eq}
use llscheme.Runtime.Utils.{check_args_count, number_p}
use llscheme.Runtime.PairList.{argument, simplenumber_get}
use llscheme.Runtime.Strings.{
  string_p, text_of, write_byte, total_length, block_size, append_all, builtin_string_append,
  substring_at, builtin_substring,
}

-- Strings at the addresses, one after the other.
pub data StringsAt (h : Heap) : List ℕ → List Text → Type 0 where
  no_strings : StringsAt h [] []
  a_string :
      {a : ℕ} {s : Text} {as' : List ℕ} {ss : List Text}
      → object_at h a ≡ some (Object.string s)
      → StringsAt h as' ss
      → StringsAt h (a ∷ as') (s ∷ ss)

unfoldable pub concat : List Text → Text
concat [] = []
concat (s ∷ ss) = s ++ concat ss

length-texts : (s t : Text) → length (s ++ t) ≡ length s + length t
length-texts = length-append

within_int : (m : ℕ) → m < modulus → m % modulus ≡ m
within_int m l = ground arith

total_length-StringsAt :
    (h : Heap) (n : ℕ) {args : List ℕ} {ss : List Text}
    → StringsAt h args ss
    → n + length (concat ss) < modulus
    → total_length args n h ≡ ok (n + length (concat ss), h)
unfolding total_length string_p text_of concat
total_length-StringsAt h n no_strings l = ap (λ (m : ℕ). ok (m, h)) (omega arith)
total_length-StringsAt h n (a_string {a} {s} {as'} {ss} e r) l =
    let sum = length-texts s (concat ss) in
    rw (load-eq h a e) (
      rw (load-eq h a e, within_int (n + length s) (omega (arith, l, sum)))
        (total_length-StringsAt h (n + length s) {args = as'} {ss = ss} r (omega (arith, l, sum))
          ∙ ap (λ (m : ℕ). ok (m, h)) (omega (arith, sum))))

block_size-small : (h : Heap) (n : ℕ) → n < sign_bit - 1 → block_size n h ≡ ok (n + 1, h)
unfolding block_size
block_size-small h n l =
    let no_overflow : (n == sign_bit - 1) ≡ false = ground arith in
    let same : (n + 1) % modulus ≡ n + 1 = within_int (n + 1) (omega (arith, l)) in
    let above : below_zero (n + 1) ≡ false = ground arith in rw (no_overflow, same, above) refl

write_byte-within : (size i : ℕ) (h : Heap) → i < size → write_byte size i h ≡ ok (tt, h)
unfolding write_byte
write_byte-within size i h l = let within : ltb i size ≡ true = ground arith in rw within refl

write_byte-outside : (size i : ℕ) (h : Heap) → size ≤ i → write_byte size i h ≡ fault out_of_bounds
unfolding write_byte
write_byte-outside size i h l = let out : ltb i size ≡ false = ground arith in rw out refl

-- In a block that is larger than the texts, the loop writes nothing outside it.
append_all-StringsAt :
    (h : Heap) (size : ℕ) (buf : Text) {args : List ℕ} {ss : List Text}
    → StringsAt h args ss
    → length (buf ++ concat ss) < size
    → append_all args size buf h ≡ ok (buf ++ concat ss, h)
unfolding append_all text_of write_byte concat
append_all-StringsAt h size buf no_strings l = rw (append-nil buf) refl
append_all-StringsAt h size buf (a_string {a} {s} {as'} {ss} e r) l = rw (load-eq h a e) (
    rw
      (write_byte-within size (length (buf ++ s)) h (
        omega (
          arith,
          length-texts buf s,
          length-texts s (concat ss),
          length-texts buf (s ++ concat ss),
        )))
      (append_all-StringsAt h size (buf ++ s) {args = as'} {ss = ss} r (
          omega (
            arith,
            length-texts buf s,
            length-texts s (concat ss),
            length-texts buf (s ++ concat ss),
            length-texts (buf ++ s) (concat ss),
          ))
        ∙ ap (λ (t : Text). ok (t, h)) (append_assoc buf s (concat ss))))

-- string-append of strings, at least one and with less than INT_MAX characters in all, makes a string of
-- all their texts, in order, changes no object that was there, and writes only inside the block that it
-- has allocated.
pub builtin_string_append-StringsAt :
    (h : Heap) {args : List ℕ} {ss : List Text}
    → args ≢ []
    → StringsAt h args ss
    → length (concat ss) < 2147483647
    → builtin_string_append args h ≡ ok (suc (length h), h ++ Object.string (concat ss) ∷ [])
unfolding builtin_string_append check_args_count new_object
builtin_string_append-StringsAt h n no_strings l = absurd (n refl)
builtin_string_append-StringsAt h n (a_string {a} {s} {as'} {ss} e r) l =
    let strings = a_string e r in
    let enough : ltb (suc (length as')) 1 ≡ false = ground arith in
    let all = length (concat (s ∷ ss)) in
    rw
      (
        enough,
        total_length-StringsAt h 0 strings (omega (arith, l)),
        block_size-small h (0 + all) (omega (arith, l)),
        append_all-StringsAt h (0 + all + 1) [] strings (omega arith),
      )
      refl

substring_at-fault :
    (h : Heap) (str : Text) (start end : ℕ)
    → start ≤ end
    → end ≤ length str
    → substring_at str (pos start) (pos end) h ≡ fault out_of_bounds
unfolding substring_at
substring_at-fault h str start end l l' =
    let ordered : ltb end start ≡ false = ground arith in
    let within : ltb (length str) end ≡ false = ground arith in
    rw (ordered, within)
      (rw (write_byte-outside (end - start + 1) (end - start + 1) h (omega arith)) refl)

-- substring of a string with two numbers, the first at most the second and the second at most the length
-- of the string, writes a byte beyond the block that it has allocated.
pub builtin_substring-fault :
    (h : Heap) (a k m : ℕ) {s s' : ℕ} {str : Text} (start end : ℕ)
    → object_at h a ≡ some (Object.string str)
    → object_at h k ≡ some (Object.number s (pos start))
    → object_at h m ≡ some (Object.number s' (pos end))
    → start ≤ end
    → end ≤ length str
    → builtin_substring (a ∷ k ∷ m ∷ []) h ≡ fault out_of_bounds
unfolding builtin_substring argument check_args_count string_p number_p text_of
builtin_substring-fault h a k m {str} start end e e' e'' l l' =
    rw (load-eq h a e, load-eq h k e', load-eq h m e'')
      (rw (load-eq h a e, load-eq h k e', load-eq h m e'')
        (unfold simplenumber_get in substring_at-fault h str start end l l'))
