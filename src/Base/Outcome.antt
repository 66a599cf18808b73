-- ===== src/Base/Outcome.antt =====
-- The outcomes of the program's routines, and routines that thread a state.
use Prim.Native.Nat.{ℕ}
use mathlib.Core.List.{List, [], ◌∷◌, ◌++◌}
use llscheme.Base.Lists.{Text, codes}
use llscheme.Base.Integers.{ℤ}

-- The `Error` objects that the front end throws, by the message that they carry. `stopped` is
-- `lsrt_error` of the runtime: it prints a format with its arguments and ends the program, or, in the
-- interpreter, throws an `Error` with an empty message.
pub data Error : Type 0 where
  invalid_character : ℕ → Error
  invalid_identifier : ℕ → Error
  invalid_dot : Error
  invalid_special : Text → Error
  expecting : Text → Text → Error
  unexpected_period unexpected_rparen : Error
  unexpected_token : Text → Error
  stopped : Text → List ℤ → Error
  bad_syntax : Text → Error
  not_found : Text → Error
  scope_error : Error

-- `Error::what`: the message that each place of the front end builds.
abbrev what : Error → Text
what (invalid_character c) = codes "invalid character: " ++ c ∷ []
what (invalid_identifier c) = codes "invalid identifier syntax " ++ c ∷ []
what invalid_dot = codes "invalid token starting with ."
what (invalid_special txt) = txt
what (expecting name found) = codes "expecting " ++ name ++ codes "; found " ++ found
what unexpected_period = codes "unexpected token: '.'"
what unexpected_rparen = codes "unexpected token: ')'"
what (unexpected_token txt) = codes "unexpected token: '" ++ txt ++ codes "'"
what (stopped fmt args) = []
what (bad_syntax txt) = txt
what (not_found name) = codes "symbol not found: " ++ name
what scope_error = codes "Scope error"

-- Undefined behaviour of the C++ code.
pub data Fault : Type 0 where
  pointer_past_literal missing_return out_of_bounds null_pointer signed_overflow bad_cast
        division_by_zero :
      Fault

-- `diverge` means that the fuel of a loop ran out.
pub data Outcome {ℓ} (A : Type ℓ) : Type ℓ where
  ok : A → Outcome A
  throws : Error → Outcome A
  fault : Fault → Outcome A
  diverge : Outcome A

-- A routine over the state `S`.
abbrev pub Routine : Type 0 → Type 0 → Type 0
Routine S A = S → Outcome (A × S)

abbrev pub and_then : {A B : Type 0} → Outcome A → (A → Outcome B) → Outcome B
and_then (ok a) f = f a
and_then (throws e) f = throws e
and_then (fault e) f = fault e
and_then diverge f = diverge

module _ {S : Type 0} where
  infixl 5 ◌>>=◌ ◌>>◌
  abbrev pub ◌>>=◌ : {A B : Type 0} → Routine S A → (A → Routine S B) → Routine S B
  ◌>>=◌ m f s = and_then (m s) (λ (a, s'). f a s')

  abbrev pub ◌>>◌ : {A B : Type 0} → Routine S A → Routine S B → Routine S B
  m >> k = m >>= λ _. k

  abbrev pub pure : {A : Type 0} → A → Routine S A
  pure a s = ok (a, s)

  abbrev pub throw : {A : Type 0} → Error → Routine S A
  throw e s = throws e

  abbrev pub undefined : {A : Type 0} → Fault → Routine S A
  undefined e s = fault e

  abbrev pub looping : {A : Type 0} → Routine S A
  looping s = diverge
