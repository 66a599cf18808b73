-- ===== src/Base/Simulation.antt =====
-- Two routines over related states that give the same results.
use mathlib.Core.Path.{◌≡◌}
use llscheme.Base.Tests.{if◌then◌else◌}
use llscheme.Base.Outcome.{
  Error, Fault, Outcome, ok, throws, fault, diverge, Routine, ◌>>=◌, pure, throw, undefined,
  looping, and_then,
}
use mathlib.Core.Bool.{Bool, true, false}

-- The same value, error, fault or divergence; where there is a value, related states.
pub data Related {S T A : Type 0} (R : S → T → Type 0)
    : Outcome (A × S) → Outcome (A × T) → Type 0 where
  both_ok : (a : A) {s : S} {t : T} → R s t → Related R (ok (a, s)) (ok (a, t))
  both_throw : (e : Error) → Related R (throws e) (throws e)
  both_fault : (e : Fault) → Related R (fault e) (fault e)
  both_diverge : Related R diverge diverge

pub Related-ok :
    {S T A : Type 0} {R : S → T → Type 0} {x : Outcome (A × S)} {y : Outcome (A × T)} {a : A}
    {t : T}
    → Related R x y
    → y ≡ ok (a, t)
    → (s : S) × (x ≡ ok (a, s))
Related-ok (both_ok b {s} r) e = (s, cc)
Related-ok (both_throw x) e = cc
Related-ok (both_fault x) e = cc
Related-ok both_diverge e = cc

pub record Simulates {S T A : Type 0} (R : S → T → Type 0) (m : Routine S A) (n : Routine T A)
    : Type 0 where
  pub from : (s : S) (t : T) → R s t → Related R (m s) (n t)

module _ {S T : Type 0} {R : S → T → Type 0} where
  pub pure-Simulates : {A : Type 0} (a : A) → Simulates R (pure a) (pure a)
  pure-Simulates a = record { from = λ s t r. both_ok a r }

  pub throw-Simulates : {A : Type 0} (e : Error) → Simulates {A = A} R (throw e) (throw e)
  throw-Simulates e = record { from = λ s t r. both_throw e }

  pub undefined-Simulates :
      {A : Type 0} (e : Fault) → Simulates {A = A} R (undefined e) (undefined e)
  undefined-Simulates e = record { from = λ s t r. both_fault e }

  pub looping-Simulates : {A : Type 0} → Simulates {A = A} R looping looping
  looping-Simulates = record { from = λ s t r. both_diverge }

  bind-Related :
      {A B : Type 0} {x : Outcome (A × S)} {y : Outcome (A × T)} (k : A → Routine S B)
      (l : A → Routine T B)
      → Related R x y
      → ((a : A) → Simulates R (k a) (l a))
      → Related R (and_then x (λ (a, s). k a s)) (and_then y (λ (a, t). l a t))
  bind-Related k l (both_ok a {s} {t} r) h = (h a).from s t r
  bind-Related k l (both_throw e) h = both_throw e
  bind-Related k l (both_fault e) h = both_fault e
  bind-Related k l both_diverge h = both_diverge

  pub bind-Simulates :
      {A B : Type 0} {m : Routine S A} {n : Routine T A} {k : A → Routine S B} {l : A → Routine T B}
      → Simulates R m n
      → ((a : A) → Simulates R (k a) (l a))
      → Simulates R (m >>= k) (n >>= l)
  bind-Simulates {k} {l} h g = record { from = λ s t r. bind-Related k l (h.from s t r) g }

  pub if-Simulates :
      {A : Type 0} (b : Bool) {m m' : Routine S A} {n n' : Routine T A}
      → Simulates R m n
      → Simulates R m' n'
      → Simulates R (if b then m else m') (if b then n else n')
  if-Simulates true h g = h
  if-Simulates false h g = g

  pub ruleset simulation = (
    pure-Simulates, throw-Simulates, undefined-Simulates, looping-Simulates, bind-Simulates,
    if-Simulates,
  )
