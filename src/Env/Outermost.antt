-- ===== src/Env/Outermost.antt =====
-- A search with no scope but the outermost one.
use llscheme.Base.{ℕ, ◌≡◌, refl, Option-cases, inl, inr, [], ◌∷◌, Text}
use llscheme.Env.{ExecutionEnv, search_local_binding, search_binding, or_global, update_env}
use llscheme.Env.Maps.{Binding, find}
use llscheme.Env.Scopes.{search-hit, search-miss, search-nil}

-- the environment between two definitions of a program
abbrev pub outermost_env : Binding → Binding → Binding → ℕ → ExecutionEnv
outermost_env g b r n = record { global = g; lexical = b ∷ []; refs = r ∷ []; next_value = n }

-- There it makes no references.
pub search_binding-outermost :
    (name : Text) (g b r : Binding) (n : ℕ)
    → (search_binding name (outermost_env g b r n)).1 ≡ outermost_env g b r n
unfolding search_binding search_local_binding
search_binding-outermost name g b r n = elim (Option-cases (find name b)) [
  | inl e ↦
      rw (search-miss name b r [] [] n e, search-nil name n) (unfold update_env or_global in refl)
  | inr (v, e) ↦ rw (search-hit name b r [] [] n v e) (unfold update_env or_global in refl)
]
