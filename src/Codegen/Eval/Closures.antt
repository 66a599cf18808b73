-- ===== src/Codegen/Eval/Closures.antt =====
-- `createFunction` of src/codegen.cc between the assertions on the scopes.
use llscheme.Base.{ℕ, suc, ◌≡◌, refl, Option, none, some, List, [], ◌∷◌, Text}
use llscheme.Base.Outcome.{◌>>=◌, pure, and_then}
use llscheme.Env.{back}
use llscheme.Env.Maps.{Binding}
use llscheme.Env.Names.{AllBound, IsScoped-AllBound, search_local_binding-bound}
use llscheme.Ast.{Nodes, number, boolean, symbol, string, sexpr, none_left, arg}
use llscheme.Codegen.Session.{
  Request, Session, Generate, emit, bind_local, search_local, set_insert_point,
}
use llscheme.Codegen.Forms.{
  load_func_args, replace_temporary, load_captured, make_prolog, current_refs, generate_function,
  create_function,
}
use llscheme.Codegen.Eval.Check.{Names, Verdict, accept, check_formals}
use llscheme.Codegen.Eval.Judged.{
  passes, Sound, pure-Sound, throw-Sound, then-Sound, last-Sound, fact-Sound,
}
use llscheme.Codegen.Eval.Scoped.{
  Scoped, emit-Sound, insert_place-Sound, set_insert_point-Sound, bind_local-Sound,
  enter_scope-Sound, leave_scope-Sound,
}
use llscheme.Codegen.Eval.Functions.{Keeps, function_init-Keeps, close_over-Keeps}

-- `Scoped`, with some names that the innermost scope binds
record Bound (refs : Binding) (Γ : Names) (Γs : List Names) (f : ℕ) (s : Session) : Type 0 where
  within : Scoped Γ Γs f s
  all : AllBound refs (back s.eenv.lexical)

-- names in scope that are known to be some names
abbrev Some : List Names → ℕ → Session → Type 0
Some Γs f s = (Γ : Names) × Scoped Γ Γs f s

Some-Sound :
    {Γs : List Names} {f : ℕ} {A : Type 0} {v : Verdict} {m : Generate A} {Q : A → Session → Type 0}
    → ((Γ : Names) → Sound (Scoped Γ Γs f) v m Q)
    → Sound (Some Γs f) v m Q
Some-Sound k = record { from = λ s (Γ, h). (k Γ).from s h }

forget-Sound :
    {Γ : Names} {Γs : List Names} {f : ℕ} {A : Type 0} (a : A)
    → Sound (Scoped Γ Γs f) accept (pure a) (λ _. Some Γs f)
forget-Sound {Γ} a = record { from = λ s h. passes a (Γ, h) }

module _ {Γ : Names} {Γs : List Names} {f : ℕ} where
  emit-Bound :
      {refs : Binding} (r : Request)
      → Sound (Bound refs Γ Γs f) accept (emit r) (λ _. Bound refs Γ Γs f)
  unfolding emit
  emit-Bound r = record {
    from = λ s h. passes _ (record {
      within = record {
        scoped = h.within.scoped;
        layers = h.within.layers;
        inside = h.within.inside;
      };
      all = h.all;
    });
  }

  current_refs-Bound : Sound (Scoped Γ Γs f) accept current_refs (λ refs. Bound refs Γ Γs f)
  unfolding current_refs
  current_refs-Bound = record {
    from = λ s h. passes _ (record { within = h; all = IsScoped-AllBound s.eenv h.scoped });
  }

  set_insert_point-Bound :
      {refs : Binding} (b : ℕ)
      → Sound
          (Bound refs Γ Γs f)
          accept
          (set_insert_point (record { block = b; func = f }))
          (λ _. Bound refs Γ Γs f)
  unfolding set_insert_point
  set_insert_point-Bound b = record {
    from = λ s h. passes _ (record {
      within = record { scoped = h.within.scoped; layers = h.within.layers; inside = refl };
      all = h.all;
    });
  }

  unbound-Sound :
      {refs : Binding} {A : Type 0} (a : A)
      → Sound (Bound refs Γ Γs f) accept (pure a) (λ _. Scoped Γ Γs f)
  unbound-Sound a = record { from = λ s h. passes a h.within }

  -- The search in the loop of the prolog finds the name at once.
  search-Bound :
      (name : Text) (val : ℕ) (refs : Binding)
      → Sound
          (Bound ((name, val) ∷ refs) Γ Γs f)
          accept
          (search_local name)
          (λ o s. Bound refs Γ Γs f s × ((v : ℕ) × (o ≡ some v)))
  unfolding search_local
  search-Bound name val refs = record {
    from = λ s h.
        let ((v, b), rest) = h.all in
        rw (search_local_binding-bound name v s.eenv h.within.scoped b)
          (passes _ (record { within = h.within; all = rest }, (v, refl)));
  }

  replace-Bound :
      {refs : Binding} (name : Text) (ai i : ℕ) (o : Option ℕ)
      → (v : ℕ) × (o ≡ some v)
      → Sound (Bound refs Γ Γs f) accept (replace_temporary name ai i o) (λ _. Bound refs Γ Γs f)
  unfolding replace_temporary
  replace-Bound name ai i none e = absurd (cc (e.1))
  replace-Bound name ai i (some v) e =
      then-Sound (emit-Bound _)
        λ _. then-Sound (emit-Bound _) λ _. then-Sound (emit-Bound _) λ _. pure-Sound tt

  load_captured-Bound :
      (refs : Binding) (ai i : ℕ)
      → Sound (Bound refs Γ Γs f) accept (load_captured refs ai i) (λ _. Scoped Γ Γs f)
  unfolding load_captured
  load_captured-Bound [] ai i = unbound-Sound tt
  load_captured-Bound ((name, val) ∷ refs) ai i = then-Sound (search-Bound name val refs) λ o.
      fact-Sound
        λ e. then-Sound (replace-Bound name ai i o e) λ _. load_captured-Bound refs ai (suc i)

  make_prolog-Bound :
      (bb ai : ℕ) (refs : Binding)
      → Sound (Bound refs Γ Γs f) accept (make_prolog f bb ai refs) (λ _. Scoped Γ Γs f)
  unfolding make_prolog
  make_prolog-Bound bb ai [] = unbound-Sound tt
  make_prolog-Bound bb ai (r ∷ refs) = then-Sound (emit-Bound _) λ b.
      then-Sound (set_insert_point-Bound b) λ _.
        then-Sound (load_captured-Bound (r ∷ refs) ai 0)
          λ _. then-Sound (emit-Sound _) λ _. then-Sound (emit-Sound _) λ _. pure-Sound tt

-- The formal parameters come into scope as `check_formals` says, for what is behind them.
load_func_args-Sound :
    {A : Type 0} {Γs : List Names} {f : ℕ} {w : Names → Verdict} {k : Generate A}
    {Q : A → Session → Type 0} (Γ : Names) (formals : Nodes) (ai i : ℕ)
    → ((Δ : Names) → Sound (Scoped Δ Γs f) (w Δ) k Q)
    → Sound
        (Scoped Γ Γs f)
        (and_then (check_formals Γ formals) w)
        (load_func_args formals ai i >>= λ _. k)
        Q
unfolding load_func_args check_formals emit bind_local
load_func_args-Sound Γ none_left ai i h = record { from = (h Γ).from }
load_func_args-Sound Γ (arg (symbol name) rest) ai i h = record {
  from =
      (then-Sound (emit-Sound _) λ v.
        then-Sound (bind_local-Sound name v)
          λ _. load_func_args-Sound (name ∷ Γ) rest ai (suc i) h).from;
}
load_func_args-Sound Γ (arg (number n) rest) ai i h = throw-Sound _
load_func_args-Sound Γ (arg (boolean b) rest) ai i h = throw-Sound _
load_func_args-Sound Γ (arg (string s) rest) ai i h = throw-Sound _
load_func_args-Sound Γ (arg (sexpr as' d) rest) ai i h = throw-Sound _

-- the body of a function, in the scope of its formal parameters
generate_function-Sound :
    {Γ : Names} {Γs : List Names} {g : ℕ} {w : Names → Verdict} {body : Generate ℕ} (f : ℕ)
    (formals : Nodes)
    → ((Δ : Names) → Keeps Δ Γs f (w Δ) body)
    → Sound
        (Scoped Γ Γs g)
        (and_then (check_formals Γ formals) w)
        (generate_function f formals body)
        (λ _. Some Γs f)
unfolding generate_function
generate_function-Sound {Γ} f formals h = then-Sound (emit-Sound _) λ bb.
    then-Sound (emit-Sound _) λ _. then-Sound (set_insert_point-Sound _ refl) λ _.
      then-Sound (emit-Sound _) λ argc. then-Sound (emit-Sound _) λ _.
        then-Sound (emit-Sound _) λ args. then-Sound (emit-Sound _) λ _.
          load_func_args-Sound Γ formals args 0 λ Δ. last-Sound (h Δ) λ v.
            then-Sound (emit-Sound _) λ _. then-Sound current_refs-Bound λ refs.
              then-Sound (emit-Bound _)
                λ ai. then-Sound (make_prolog-Bound bb ai refs) λ _. forget-Sound refs

pub create_function-Sound :
    {Γ : Names} {Γs : List Names} {g : ℕ} {w : Names → Verdict} {body : Generate ℕ}
    (formals : Nodes) (name : Text)
    → ((Δ : Names) (f : ℕ) → Keeps Δ (Γ ∷ Γs) f (w Δ) body)
    → Keeps Γ Γs g (and_then (check_formals Γ formals) w) (create_function formals name body)
unfolding create_function
create_function-Sound formals name h = then-Sound (emit-Sound _) λ f.
    then-Sound (function_init-Keeps _ _) λ obj. then-Sound enter_scope-Sound λ _.
      then-Sound insert_place-Sound λ prev. fact-Sound λ e.
        last-Sound (generate_function-Sound f formals λ Δ. h Δ f) λ refs. Some-Sound λ Δ.
          then-Sound (set_insert_point-Sound prev e) λ _.
            then-Sound (close_over-Keeps f obj refs)
              λ o. then-Sound leave_scope-Sound λ _. pure-Sound o
