-- ===== src/Runtime/Strings.antt =====
-- src/runtime/strings.c: strings and the names of symbols. A C string is its bytes up to the zero, so
-- no text holds a zero.
pub mod Append
use llscheme.Base.{
  ℕ, zero, suc, ◌+◌, ◌-◌, Bool, true, false, ◌||◌, ◌&&◌, [], ◌∷◌, ◌++◌, ltb, leb, if◌then◌else◌,
  codes, ℤ, pos, negsuc, Text, List, length, drop, same_text, ◌==◌,
}
use llscheme.Base.Outcome.{
  ◌>>=◌, ◌>>◌, pure, throw, undefined, stopped, out_of_bounds, null_pointer, signed_overflow,
}
use Prim.Native.Nat.{◌%◌}
use llscheme.Runtime.Small.{modulus, sign_bit, below_zero}
use llscheme.Runtime.Heap.{Object, Run, load, store, new_object}
use llscheme.Runtime.Utils.{fails, check_args_count, expect, number_p, truth_obj}
use llscheme.Runtime.PairList.{argument, simplenumber_get}

abbrev pub is_string : Object → Bool
is_string (Object.string s) = true
is_string _ = false

abbrev pub is_symbol : Object → Bool
is_symbol (Object.symbol d s) = true
is_symbol _ = false

unfoldable pub string_p : ℕ → Run (Unit {0})
string_p = expect is_string (codes "expected string")

unfoldable pub symbol_p : ℕ → Run (Unit {0})
symbol_p = expect is_symbol (codes "expected symbol")

-- `lso_string_get`, `lso_symbol_name`
abbrev pub string_get : Object → Run Text
string_get (Object.string s) = pure s
string_get _ = undefined null_pointer

abbrev pub symbol_name : Object → Run Text
symbol_name (Object.symbol d s) = pure s
symbol_name _ = undefined null_pointer

unfoldable pub builtin_symbolp : List ℕ → Run ℕ
unfolding argument
builtin_symbolp args = do
  check_args_count 1 1 (length args)
  a ← argument args 0
  o ← load a
  pure (truth_obj (is_symbol o))

unfoldable pub builtin_symbol_to_string : List ℕ → Run ℕ
unfolding argument symbol_p
builtin_symbol_to_string args = do
  check_args_count 1 1 (length args)
  a ← argument args 0
  symbol_p a
  o ← load a
  s ← symbol_name o
  new_object (Object.string s)

unfoldable pub builtin_stringp : List ℕ → Run ℕ
unfolding argument
builtin_stringp args = do
  check_args_count 1 1 (length args)
  a ← argument args 0
  o ← load a
  pure (truth_obj (is_string o))

-- a checked string argument
unfoldable pub text_of : ℕ → Run Text
text_of a = do o ← load a; string_get o

unfoldable pub builtin_string_length : List ℕ → Run ℕ
unfolding argument string_p text_of
builtin_string_length args = do
  check_args_count 1 1 (length args)
  a ← argument args 0
  string_p a
  s ← text_of a
  new_object (Object.number 0 (pos (length s)))

-- `strcasecmp` in the "C" locale
abbrev pub lower : ℕ → ℕ
lower c = if leb b'A' c && leb c b'Z' then c + 32 else c

abbrev pub lower_all : Text → Text
lower_all [] = []
lower_all (c ∷ s) = lower c ∷ lower_all s

-- `string=?` and `string-ci=?`, by the comparison that they make
unfoldable pub compare_strings : (Text → Text → Bool) → List ℕ → Run ℕ
unfolding argument string_p text_of
compare_strings same args = do
  check_args_count 2 2 (length args)
  a ← argument args 0
  string_p a
  b ← argument args 1
  string_p b
  s ← text_of a
  t ← text_of b
  pure (truth_obj (same s t))

unfoldable pub builtin_string_eq : List ℕ → Run ℕ
unfolding compare_strings
builtin_string_eq = compare_strings same_text

unfoldable pub builtin_string_ci_eq : List ℕ → Run ℕ
unfolding compare_strings
builtin_string_ci_eq = compare_strings λ s t. same_text (lower_all s) (lower_all t)

-- writing the byte at an index of a block of the given size
unfoldable pub write_byte : ℕ → ℕ → Run (Unit {0})
write_byte size i = if ltb i size then pure tt else undefined out_of_bounds

abbrev pub take : ℕ → Text → Text
take zero s = []
take (suc n) [] = []
take (suc n) (c ∷ s) = c ∷ take n s

-- The tests of `substring` and what follows: the zero goes to `buf[buflen]` of `buflen` bytes.
unfoldable pub substring_at : Text → ℤ → ℤ → Run ℕ
unfolding write_byte
substring_at str (pos start) (pos end) =
    if ltb end start || ltb (length str) end
    then throw (
        stopped (codes "Out of range, start=%d, end=%d, len=%d")
          (pos start ∷ pos end ∷ pos (length str) ∷ []))
    else do
      write_byte (end - start + 1) (end - start + 1)
      new_object (Object.string (take (end - start) (drop start str)))
substring_at str start end =
    throw (
      stopped (codes "Out of range, start=%d, end=%d, len=%d")
        (start ∷ end ∷ pos (length str) ∷ []))

unfoldable pub builtin_substring : List ℕ → Run ℕ
unfolding argument string_p text_of simplenumber_get substring_at
builtin_substring args = do
  check_args_count 3 3 (length args)
  a ← argument args 0
  string_p a
  k ← argument args 1
  number_p k
  m ← argument args 2
  number_p m
  str ← text_of a
  o ← load k
  start ← simplenumber_get o
  o' ← load m
  end ← simplenumber_get o'
  substring_at str start end

-- The first loop of `string-append`: the lengths of all arguments, summed in an `int`, as its bit
-- pattern.
unfoldable pub total_length : List ℕ → ℕ → Run ℕ
unfolding string_p text_of
total_length [] n = pure n
total_length (a ∷ as') n = do string_p a; s ← text_of a; total_length as' ((n + length s) % modulus)

-- the second loop: each `strcat` writes behind the text in the block, and a zero
unfoldable pub append_all : List ℕ → ℕ → Text → Run Text
unfolding text_of write_byte
append_all [] size buf = pure buf
append_all (a ∷ as') size buf = do
  s ← text_of a
  write_byte size (length (buf ++ s))
  append_all as' size (buf ++ s)

-- The size of the block, `total_len + 1`: the sum may overflow, and there is no block of a size that is
-- negative before it becomes a `size_t`.
unfoldable pub block_size : ℕ → Run ℕ
block_size total =
    if total == sign_bit - 1
    then undefined signed_overflow
    else let size = (total + 1) % modulus in
      if below_zero size then undefined null_pointer else pure size

unfoldable pub builtin_string_append : List ℕ → Run ℕ
unfolding total_length block_size append_all
builtin_string_append args = do
  check_args_count 1 0 (length args)
  total ← total_length args 0
  size ← block_size total
  buf ← append_all args size []
  new_object (Object.string buf)
