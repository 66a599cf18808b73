-- ===== src/Env.antt =====
-- src/env.cc and src/include/env.hh: the names that the code generator knows, scope by scope. An
-- `llvm::Value *` is a number and NULL is `none`; a new value takes the next number.
pub mod Maps
pub mod Scopes
pub mod Invariant
pub mod Outermost
pub mod Names
use mathlib.Core.Option
use mathlib.Core.Option.{Option, none, some}
use llscheme.Base.{ℕ, suc, List, [], ◌∷◌, Text}
use Maps.{Binding, find, insert}

-- The deques hold the innermost scope first: `back` of the source is the head here. Both have the
-- scope of the constructor at their bottom, and grow and shrink together.
pub record ExecutionEnv : Type 0 where
  pub global : Binding
  pub lexical : List Binding
  pub refs : List Binding
  pub next_value : ℕ

unfoldable pub new_env : ExecutionEnv
new_env = record { global = []; lexical = [] ∷ []; refs = [] ∷ []; next_value = 0 }

-- `insert` at the back of a deque. On an empty one, which `back` must not be asked for, it does nothing.
unfoldable pub insert_back : Text → ℕ → List Binding → List Binding
insert_back name val [] = []
insert_back name val (b ∷ bs) = insert name val b ∷ bs

unfoldable pub add_binding : Text → ℕ → ExecutionEnv → ExecutionEnv
unfolding insert_back
add_binding name val env = record env { lexical = insert_back name val env.lexical }

unfoldable pub add_global_binding : Text → ℕ → ExecutionEnv → ExecutionEnv
add_global_binding name val env = record env { global = insert name val env.global }

unfoldable pub new_scope : ExecutionEnv → ExecutionEnv
new_scope env = record env { lexical = [] ∷ env.lexical; refs = [] ∷ env.refs }

unfoldable pub pop_back : List Binding → List Binding
pop_back [] = []
pop_back (b ∷ bs) = bs

-- `freeLastBinding` on both deques; `none` is the error "Scope error".
unfoldable pub exit_from : ExecutionEnv → List Binding → Option ExecutionEnv
unfolding pop_back
exit_from env [] = none
exit_from env (b ∷ bs) = some (record env { lexical = bs; refs = pop_back env.refs })

unfoldable pub exit_last_scope : ExecutionEnv → Option ExecutionEnv
unfolding exit_from
exit_last_scope env = exit_from env env.lexical

unfoldable pub search_global_binding : Text → ExecutionEnv → Option ℕ
search_global_binding name env = find name env.global

-- The scopes from one on, outwards, and the next new value.
pub record ScopesFrom : Type 0 where
  pub lexical : List Binding
  pub refs : List Binding
  pub next_value : ℕ

-- `makeref` for one scope: `val` is what the scope outside it has for the name.
unfoldable pub make_ref : Text → Binding → Binding → ℕ × ScopesFrom → ℕ × ScopesFrom
make_ref name b r (val, s) = (
  s.next_value,
  record {
    lexical = insert name s.next_value b ∷ s.lexical;
    refs = insert name val r ∷ s.refs;
    next_value = suc s.next_value;
  },
)

-- The search from a scope outwards, and the way back in to it. A scope that has the name already ends
-- the search, and is left as it is.
unfoldable pub search_scopes : Text → List Binding → List Binding → ℕ → Option (ℕ × ScopesFrom)
unfolding make_ref
search_scopes name [] rs n = none
search_scopes name (b ∷ bs) [] n = none
search_scopes name (b ∷ bs) (r ∷ rs) n =
    let outside = Option.map (make_ref name b r) (search_scopes name bs rs n) in
    elim (find name b) [
      | some v ↦ some (v, record { lexical = b ∷ bs; refs = r ∷ rs; next_value = n })
      | none ↦ outside
    ]

unfoldable pub update_env : ExecutionEnv → Option (ℕ × ScopesFrom) → Option ℕ × ExecutionEnv
update_env env none = (none, env)
update_env env (some (v, s)) =
    (some v, record env { lexical = s.lexical; refs = s.refs; next_value = s.next_value })

unfoldable pub search_local_binding : Text → ExecutionEnv → Option ℕ × ExecutionEnv
unfolding update_env
search_local_binding name env =
    update_env env (search_scopes name env.lexical env.refs env.next_value)

or_global : Text → Option ℕ × ExecutionEnv → Option ℕ × ExecutionEnv
or_global name (some v, env) = (some v, env)
or_global name (none, env) = (search_global_binding name env, env)

unfoldable pub search_binding : Text → ExecutionEnv → Option ℕ × ExecutionEnv
unfolding or_global
search_binding name env = or_global name (search_local_binding name env)

unfoldable pub back : List Binding → Binding
back [] = []
back (r ∷ rs) = r

unfoldable pub get_current_refs : ExecutionEnv → Binding
unfolding back
get_current_refs env = back env.refs
