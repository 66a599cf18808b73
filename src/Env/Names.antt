-- ===== src/Env/Names.antt =====
-- The names that are bound in some scope, from each scope outwards.
use llscheme.Base.{
  ℕ, ◌≡◌, refl, Bool, true, false, ◌||◌, Bool-cases, Option-cases, inl, inr, Option, none, some,
  List, [], ◌∷◌, arith, Text, same_text,
}
use mathlib.Core.Option
use llscheme.Env.{
  ExecutionEnv, ScopesFrom, make_ref, search_scopes, search_local_binding, update_env, back,
  get_current_refs,
}
use llscheme.Env.Maps.{Binding, find, insert, find-insert, same_text→eq, same_text_refl}
use llscheme.Env.Scopes.{search-hit, search-miss, Unbound, Has, Captured, outermost, inner}
use llscheme.Env.Invariant.{IsScoped, search_scopes-again}

abbrev pub is_some : Option ℕ → Bool
is_some none = false
is_some (some v) = true

abbrev pub is_bound : Text → List Binding → Bool
is_bound k [] = false
is_bound k (b ∷ bs) = is_some (find k b) || is_bound k bs

-- Scopes that, from one on outwards, bind the same names.
pub data SameNames : List Binding → List Binding → Type 0 where
  no_scope : SameNames [] []
  one_more :
      {b c : Binding} {bs cs : List Binding}
      → ((k : Text) → is_bound k (b ∷ bs) ≡ is_bound k (c ∷ cs))
      → SameNames bs cs
      → SameNames (b ∷ bs) (c ∷ cs)

pub SameNames-refl : (bs : List Binding) → SameNames bs bs
SameNames-refl [] = no_scope
SameNames-refl (b ∷ bs) = one_more (λ k. refl) (SameNames-refl bs)

pub SameNames-names :
    {bs cs : List Binding} → SameNames bs cs → (k : Text) → is_bound k bs ≡ is_bound k cs
SameNames-names no_scope k = refl
SameNames-names (one_more h s) k = h k

pub Unbound-names : (name : Text) (bs : List Binding) → Unbound name bs → is_bound name bs ≡ false
Unbound-names name [] u = refl
Unbound-names name (b ∷ bs) u = rw u.0 (Unbound-names name bs u.1)

pub is_bound-insert :
    (name k : Text) (val : ℕ) (b : Binding) (bs : List Binding)
    → is_bound k (insert name val b ∷ bs) ≡ (same_text name k || is_bound k (b ∷ bs))
is_bound-insert name k val b bs = ground (arith, find-insert k name val b)

module _ (name : Text) where
  -- What a search leaves.
  pub data Left (bs : List Binding) : Option (ℕ × ScopesFrom) → Type 0 where
    not_there : Left bs none
    there :
        (v : ℕ) (s : ScopesFrom)
        → is_bound name bs ≡ true
        → SameNames s.lexical bs
        → Left bs (some (v, s))

  make_ref-Left :
      (b r : Binding) (bs : List Binding) {o : Option (ℕ × ScopesFrom)}
      → Left bs o
      → Left (b ∷ bs) (Option.map (make_ref name b r) o)
  unfolding make_ref
  make_ref-Left b r bs not_there = not_there
  make_ref-Left b r bs (there v s e same) = there s.next_value _ (ground arith) (
      one_more
        (λ k. ground (
          arith,
          is_bound-insert name k s.next_value b s.lexical,
          SameNames-names same k,
          same_text→eq name k,
        ))
        same)

  pub search_scopes-Left : (bs rs : List Binding) (n : ℕ) → Left bs (search_scopes name bs rs n)
  search_scopes-Left [] rs n = unfold search_scopes in not_there
  search_scopes-Left (b ∷ bs) [] n = unfold search_scopes in not_there
  search_scopes-Left (b ∷ bs) (r ∷ rs) n = elim (Option-cases (find name b)) [
    | inl e ↦
        rw (search-miss name b r bs rs n e) (make_ref-Left b r bs (search_scopes-Left bs rs n))
    | inr (v, e) ↦ rw (search-hit name b r bs rs n v e) (there v _ (rw e) (SameNames-refl (b ∷ bs)))
  ]

-- A search for a name that the innermost scope binds.
pub search_local_binding-bound :
    (name : Text) (v : ℕ) (env : ExecutionEnv)
    → IsScoped env
    → Has name v (back env.lexical)
    → search_local_binding name env ≡ (some v, env)
unfolding search_local_binding
search_local_binding-bound name v env c h =
    rw (search_scopes-again name env.next_value v env.lexical env.refs c h)
      (unfold update_env in refl)

-- The names with a reference, all bound by the scope with the references.
abbrev pub AllBound : Binding → Binding → Type 0
AllBound [] b = Unit {0}
AllBound ((k, w) ∷ r) b = ((v : ℕ) × Has k v b) × AllBound r b

Has-later : (k j : Text) (w u : ℕ) (m : Binding) → Has j u m → (x : ℕ) × Has j x ((k, w) ∷ m)
unfolding find
Has-later k j w u m h = elim (Bool-cases (same_text k j)) [
  | inl e ↦ (w, rw e refl)
  | inr e ↦ (u, rw e h)
]

AllBound-lem :
    (r b : Binding) → ((k : Text) (w : ℕ) → Has k w r → (v : ℕ) × Has k v b) → AllBound r b
AllBound-lem [] b g = tt
AllBound-lem ((k, w) ∷ r) b g = (
  g k w (unfold find in rw (same_text_refl k) refl),
  AllBound-lem r b (λ j u h. let (x, h') = Has-later k j w u r h in g j x h'),
)

Captured-AllBound : {bs rs : List Binding} → Captured bs rs → AllBound (back rs) (back bs)
unfolding back
Captured-AllBound (outermost b) = tt
Captured-AllBound (inner f g c) = AllBound-lem _ _ g

pub IsScoped-AllBound :
    (env : ExecutionEnv) → IsScoped env → AllBound (get_current_refs env) (back env.lexical)
unfolding get_current_refs
IsScoped-AllBound env c = Captured-AllBound c
