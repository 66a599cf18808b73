-- ===== src/Codegen/Eval/Scoped.antt =====
-- The assertion on the scopes of src/env.cc that the forms of src/codegen.cc keep, and the elementary
-- routines under it.
use llscheme.Base.{ℕ, ◌≡◌, refl, ap, Option, List, [], ◌∷◌, Text}
use llscheme.Env.{
  ScopesFrom, search_local_binding, update_env, insert_back, add_binding, new_scope,
  exit_last_scope, exit_from, add_global_binding,
}
use llscheme.Env.Maps.{Binding, find}
use llscheme.Env.Scopes.{Search, missed, hit, search_scopes-Search}
use llscheme.Env.Invariant.{IsScoped, Step-IsScoped, adding, entering, leaving}
use llscheme.Env.Names.{
  is_bound, is_some, SameNames, no_scope, one_more, Left, there, search_scopes-Left, Unbound-names,
  is_bound-insert,
}
use llscheme.Codegen.Session.{
  Request, Place, Session, emit, insert_place, set_insert_point, search_local, search_global,
  bind_local, bind_global, enter_scope, leave_scope,
}
use llscheme.Codegen.Eval.Check.{Names, in_scope, accept}
use llscheme.Codegen.Eval.Judged.{Judged, passes, Sound}

-- Scopes with the names that are bound from each of them on outwards.
pub data Layered : List Binding → List Names → Type 0 where
  all_told : Layered [] []
  layer :
      {b : Binding} {bs : List Binding} {Γ : Names} {Γs : List Names}
      → ((k : Text) → is_bound k (b ∷ bs) ≡ in_scope k Γ)
      → Layered bs Γs
      → Layered (b ∷ bs) (Γ ∷ Γs)

Layered-SameNames :
    {cs bs : List Binding} {Γs : List Names} → SameNames cs bs → Layered bs Γs → Layered cs Γs
Layered-SameNames no_scope l = l
Layered-SameNames (one_more h same) (layer g l) =
    layer (λ k. cc (h k, g k)) (Layered-SameNames same l)

Layered-innermost :
    {bs : List Binding} {Γ : Names} {Γs : List Names}
    → Layered bs (Γ ∷ Γs)
    → (k : Text) → is_bound k bs ≡ in_scope k Γ
Layered-innermost (layer h l) = h

Layered-inner :
    {Δ Γ : Names} {Γs : List Names} {l : List Binding}
    → Layered l (Δ ∷ Γ ∷ Γs)
    → (a : Binding) × (b : Binding) × (bs : List Binding) × (l ≡ a ∷ b ∷ bs)
      × Layered (b ∷ bs) (Γ ∷ Γs)
Layered-inner (layer {b = a} h (layer {b} {bs} g l)) = (a, b, bs, refl, layer g l)

insert_back-Layered :
    {Γ : Names} {Γs : List Names} (name : Text) (val : ℕ) {bs : List Binding}
    → Layered bs (Γ ∷ Γs)
    → Layered (insert_back name val bs) ((name ∷ Γ) ∷ Γs)
unfolding insert_back
insert_back-Layered name val (layer {b} {bs} h l) =
    layer (λ k. cc (is_bound-insert name k val b bs, h k)) l

-- `Γ` are the names in scope, `Γs` those of the scopes outside, and `f` the function that code goes to.
pub record Scoped (Γ : Names) (Γs : List Names) (f : ℕ) (s : Session) : Type 0 where
  pub scoped : IsScoped s.eenv
  pub layers : Layered s.eenv.lexical (Γ ∷ Γs)
  pub inside : s.place.func ≡ f

module _ {Γ : Names} {Γs : List Names} {f : ℕ} where
  pub emit-Sound : (r : Request) → Sound (Scoped Γ Γs f) accept (emit r) (λ _. Scoped Γ Γs f)
  unfolding emit
  emit-Sound r = record {
    from = λ s h. passes _ (record { scoped = h.scoped; layers = h.layers; inside = h.inside });
  }

  pub insert_place-Sound :
      Sound (Scoped Γ Γs f) accept insert_place (λ p s. Scoped Γ Γs f s × (p.func ≡ f))
  unfolding insert_place
  insert_place-Sound = record { from = λ s h. passes _ (h, h.inside) }

  pub set_insert_point-Sound :
      {g : ℕ} (p : Place)
      → p.func ≡ g
      → Sound (Scoped Γ Γs f) accept (set_insert_point p) (λ _. Scoped Γ Γs g)
  unfolding set_insert_point
  set_insert_point-Sound p e = record {
    from = λ s h. passes _ (record { scoped = h.scoped; layers = h.layers; inside = e });
  }

  pub bind_global-Sound :
      (name : Text) (val : ℕ)
      → Sound (Scoped Γ Γs f) accept (bind_global name val) (λ _. Scoped Γ Γs f)
  unfolding bind_global add_global_binding
  bind_global-Sound name val = record {
    from = λ s h. passes _ (record { scoped = h.scoped; layers = h.layers; inside = h.inside });
  }

  pub search_global-Sound :
      (name : Text) → Sound (Scoped Γ Γs f) accept (search_global name) (λ _. Scoped Γ Γs f)
  unfolding search_global
  search_global-Sound name = record { from = λ s h. passes _ h }

  pub bind_local-Sound :
      (name : Text) (val : ℕ)
      → Sound (Scoped Γ Γs f) accept (bind_local name val) (λ _. Scoped (name ∷ Γ) Γs f)
  unfolding bind_local
  bind_local-Sound name val = record {
    from = λ s h. passes _ (record {
      scoped = Step-IsScoped (adding name val s.eenv) h.scoped;
      layers = unfold add_binding in insert_back-Layered name val h.layers;
      inside = h.inside;
    });
  }

  pub enter_scope-Sound : Sound (Scoped Γ Γs f) accept enter_scope (λ _. Scoped Γ (Γ ∷ Γs) f)
  unfolding enter_scope
  enter_scope-Sound = record {
    from = λ s h. passes _ (record {
      scoped = Step-IsScoped (entering s.eenv) h.scoped;
      layers = unfold new_scope find in layer (Layered-innermost h.layers) h.layers;
      inside = h.inside;
    });
  }

  leave_scope-from :
      (s : Session) (a b : Binding) (bs : List Binding)
      → IsScoped s.eenv
      → s.place.func ≡ f
      → s.eenv.lexical ≡ a ∷ b ∷ bs
      → Layered (b ∷ bs) (Γ ∷ Γs)
      → Judged (λ _. Scoped Γ Γs f) accept (leave_scope s)
  unfolding leave_scope exit_last_scope exit_from
  leave_scope-from s a b bs c e l h =
      let x = ap (exit_from s.eenv) l in
      rw x (passes tt (record { scoped = Step-IsScoped (leaving l x) c; layers = h; inside = e }))

  pub leave_scope-Sound :
      {Δ : Names} → Sound (Scoped Δ (Γ ∷ Γs) f) accept leave_scope (λ _. Scoped Γ Γs f)
  leave_scope-Sound = record {
    from = λ s h.
        let (a, b, bs, e, l) = Layered-inner h.layers in
        leave_scope-from s a b bs h.scoped h.inside e l;
  }

  -- A search tells whether a name is in scope.
  searched :
      (name : Text) (s : Session) {o : Option (ℕ × ScopesFrom)}
      → Scoped Γ Γs f s
      → Search name s.eenv.lexical o
      → Left name s.eenv.lexical o
      → let out = update_env s.eenv o in
        Scoped Γ Γs f (record s { eenv = out.1 }) × (is_some out.0 ≡ in_scope name Γ)
  unfolding update_env
  searched name s h (missed u) l =
      (h, cc (Unbound-names name s.eenv.lexical u, Layered-innermost h.layers name))
  searched name s h (hit v t x) (there v' t' e same) = (
    record { scoped = x.captured; layers = Layered-SameNames same h.layers; inside = h.inside },
    cc (e, Layered-innermost h.layers name),
  )

  pub search_local-Sound :
      (name : Text)
      → Sound
          (Scoped Γ Γs f)
          accept
          (search_local name)
          (λ o s. Scoped Γ Γs f s × (is_some o ≡ in_scope name Γ))
  unfolding search_local search_local_binding
  search_local-Sound name = record {
    from = λ s h. passes _ (
        searched name s h (search_scopes-Search name s.eenv.next_value h.scoped)
          (search_scopes-Left name s.eenv.lexical s.eenv.refs s.eenv.next_value));
  }
