-- ===== src/Codegen/Eval/Judged.antt =====
-- Routines of the code generator that come to the end that a verdict tells, between two assertions on
-- the session.
use llscheme.Base.Outcome.{
  Error, Fault, Outcome, ok, throws, fault, ◌>>=◌, pure, throw, undefined, and_then,
}
use llscheme.Codegen.Session.{Session, Generate}
use llscheme.Codegen.Eval.Check.{Verdict, accept, ◌also◌}

pub data Judged {A : Type 0} (Q : A → Session → Type 0)
    : Verdict → Outcome (A × Session) → Type 0 where
  passes : (a : A) {s : Session} → Q a s → Judged Q accept (ok (a, s))
  raises : (e : Error) → Judged Q (throws e) (throws e)
  breaks : (e : Fault) → Judged Q (fault e) (fault e)

pub record Sound {A : Type 0} (P : Session → Type 0) (v : Verdict) (m : Generate A)
    (Q : A → Session → Type 0) : Type 0 where
  pub from : (s : Session) → P s → Judged Q v (m s)

module _ {A B : Type 0} {Q : A → Session → Type 0} {R : B → Session → Type 0} where
  bind-Judged :
      {v : Verdict} (w : Verdict) {x : Outcome (A × Session)} (f : A → Generate B)
      → Judged Q v x
      → ((a : A) → Sound (Q a) w (f a) R)
      → Judged R (v also w) (and_then x (λ (a, s). f a s))
  bind-Judged w f (passes a {s} h) k = (k a).from s h
  bind-Judged w f (raises e) k = raises e
  bind-Judged w f (breaks e) k = breaks e

  last-Judged :
      {v : Verdict} {x : Outcome (A × Session)} (f : A → Generate B)
      → Judged Q v x
      → ((a : A) → Sound (Q a) accept (f a) R)
      → Judged R v (and_then x (λ (a, s). f a s))
  last-Judged f (passes a {s} h) k = (k a).from s h
  last-Judged f (raises e) k = raises e
  last-Judged f (breaks e) k = breaks e

module _ {P : Session → Type 0} where
  pub pure-Sound : {A : Type 0} (a : A) → Sound P accept (pure a) (λ _. P)
  pure-Sound a = record { from = λ s h. passes a h }

  pub throw-Sound :
      {A : Type 0} {Q : A → Session → Type 0} (e : Error) → Sound {A = A} P (throws e) (throw e) Q
  throw-Sound e = record { from = λ s h. raises e }

  pub undefined-Sound :
      {A : Type 0} {Q : A → Session → Type 0} (e : Fault)
      → Sound {A = A} P (fault e) (undefined e) Q
  undefined-Sound e = record { from = λ s h. breaks e }

  module _ {A B : Type 0} {Q : A → Session → Type 0} {R : B → Session → Type 0} where
    pub bind-Sound :
        {v w : Verdict} {m : Generate A} {f : A → Generate B}
        → Sound P v m Q
        → ((a : A) → Sound (Q a) w (f a) R)
        → Sound P (v also w) (m >>= f) R
    bind-Sound {w} {f} h k = record { from = λ s p. bind-Judged w f (h.from s p) k }

    -- a routine that always passes, and one with nothing but such behind it
    pub then-Sound :
        {w : Verdict} {m : Generate A} {f : A → Generate B}
        → Sound P accept m Q
        → ((a : A) → Sound (Q a) w (f a) R)
        → Sound P w (m >>= f) R
    then-Sound {w} {f} h k = record { from = λ s p. bind-Judged w f (h.from s p) k }

    pub last-Sound :
        {v : Verdict} {m : Generate A} {f : A → Generate B}
        → Sound P v m Q
        → ((a : A) → Sound (Q a) accept (f a) R)
        → Sound P v (m >>= f) R
    last-Sound {f} h k = record { from = λ s p. last-Judged f (h.from s p) k }

  pub fact-Sound :
      {A C : Type 0} {v : Verdict} {m : Generate A} {Q : A → Session → Type 0}
      → (C → Sound P v m Q)
      → Sound (λ s. P s × C) v m Q
  fact-Sound k = record { from = λ s h. (k h.1).from s h.0 }
