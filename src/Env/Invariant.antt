-- ===== src/Env/Invariant.antt =====
-- The operations on the scopes, one after the other, and what they keep of `IsScoped`.
use llscheme.Base.{ℕ, ◌≡◌, refl, subst, sym, Option, none, some, List, [], ◌∷◌, Text}
use llscheme.Env.{
  ExecutionEnv, new_env, add_binding, new_scope, exit_last_scope, ScopesFrom, search_scopes,
  search_local_binding, back, insert_back, exit_from, pop_back, update_env, get_current_refs,
}
use llscheme.Env.Maps.{Binding, find}
use llscheme.Env.Scopes.{
  Captured, outermost, inner, new_env-Captured, new_scope-Captured, add_binding-Captured,
  search_scopes-Search, Search, missed, hit, search-hit, Has, Unbound,
}

abbrev pub IsScoped : ExecutionEnv → Type 0
IsScoped env = Captured env.lexical env.refs

-- The operations of the code generator on its scopes. Its own scope, at the bottom, is never left.
pub data Step : ExecutionEnv → ExecutionEnv → Type 0 where
  adding : (name : Text) (val : ℕ) (env : ExecutionEnv) → Step env (add_binding name val env)
  entering : (env : ExecutionEnv) → Step env (new_scope env)
  leaving :
      {env env' : ExecutionEnv} {a b : Binding} {bs : List Binding}
      → env.lexical ≡ a ∷ b ∷ bs
      → exit_last_scope env ≡ some env'
      → Step env env'
  searching : (name : Text) (env : ExecutionEnv) → Step env (search_local_binding name env).1

pub data Reach : ExecutionEnv → Type 0 where
  at_first : Reach new_env
  then_do : {env env' : ExecutionEnv} → Reach env → Step env env' → Reach env'

update_env-IsScoped :
    (name : Text) (env : ExecutionEnv) {o : Option (ℕ × ScopesFrom)}
    → IsScoped env
    → Search name env.lexical o
    → IsScoped (update_env env o).1
unfolding update_env
update_env-IsScoped name env c (missed u) = c
update_env-IsScoped name env c (hit v s h) = h.captured

leave-Captured :
    (a b : Binding) (bs rs : List Binding)
    → Captured (a ∷ b ∷ bs) rs
    → Captured (b ∷ bs) (pop_back rs)
unfolding pop_back
leave-Captured a b bs rs (inner f g c) = c

add-Captured :
    (name : Text) (val : ℕ) (bs rs : List Binding)
    → Captured bs rs
    → Captured (insert_back name val bs) rs
unfolding insert_back
add-Captured name val bs rs (outermost b) = add_binding-Captured name val b [] rs (outermost b)
add-Captured name val bs rs (inner f g c) = add_binding-Captured name val _ _ _ (inner f g c)

leave-IsScoped :
    (env : ExecutionEnv) {env' : ExecutionEnv} (a b : Binding) (bs : List Binding)
    → exit_from env (a ∷ b ∷ bs) ≡ some env'
    → Captured (a ∷ b ∷ bs) env.refs
    → IsScoped env'
unfolding exit_from
leave-IsScoped env {env'} a b bs e c =
    let same : record env { lexical = b ∷ bs; refs = pop_back env.refs } ≡ env' = cc in
    subst IsScoped same (leave-Captured a b bs env.refs c)

pub Step-IsScoped : {env env' : ExecutionEnv} → Step env env' → IsScoped env → IsScoped env'
unfolding add_binding new_scope exit_last_scope search_local_binding
Step-IsScoped (adding name val env) c = add-Captured name val _ _ c
Step-IsScoped (entering env) c = new_scope-Captured _ _ c
Step-IsScoped (leaving {env} {env'} {a} {b} {bs} e x) c =
    leave-IsScoped env a b bs (subst (λ l. exit_from env l ≡ some env') e x)
      (subst (λ l. Captured l env.refs) e c)
Step-IsScoped (searching name env) c =
    update_env-IsScoped name env c (search_scopes-Search name env.next_value c)

-- After any sequence of bindings, entered and left scopes and searches from the constructor on, what the
-- function of a scope captures the scope outside binds to the captured value, and the scope itself binds
-- it.
pub Reach-IsScoped : {env : ExecutionEnv} → Reach env → IsScoped env
Reach-IsScoped at_first = new_env-Captured
Reach-IsScoped (then_do r s) = Step-IsScoped s (Reach-IsScoped r)

-- The answer of a search for `name` from `env`, and the environment that it leaves.
pub record Answered (name : Text) (env : ExecutionEnv) (out : Option ℕ × ExecutionEnv)
    : Type 0 where
  pub scoped : IsScoped out.1
  pub answer : out.0 ≡ find name (back out.1.lexical)
  pub nothing : out.0 ≡ none → (out.1 ≡ env) × Unbound name env.lexical

Unbound-back : (name : Text) (bs : List Binding) → Unbound name bs → find name (back bs) ≡ none
unfolding find back
Unbound-back name [] u = refl
Unbound-back name (b ∷ bs) u = u.0

update_env-Answered :
    (name : Text) (env : ExecutionEnv) {o : Option (ℕ × ScopesFrom)}
    → IsScoped env
    → Search name env.lexical o
    → Answered name env (update_env env o)
unfolding update_env back
update_env-Answered name env c (missed u) = record {
  scoped = c;
  answer = sym (Unbound-back name env.lexical u);
  nothing = λ _. (refl, u);
}
update_env-Answered name env c (hit v s h) = record {
  scoped = h.captured;
  answer = sym (h.found);
  nothing = λ e. cc;
}

-- From well-formed scopes, searchLocalBinding leaves well-formed scopes and answers what the innermost one
-- then has for the name; where it answers NULL, no scope has the name and nothing is changed.
pub search_local_binding-Answered :
    (name : Text) (env : ExecutionEnv)
    → IsScoped env
    → Answered name env (search_local_binding name env)
unfolding search_local_binding
search_local_binding-Answered name env c =
    update_env-Answered name env c (search_scopes-Search name env.next_value c)

pub search_scopes-again :
    (name : Text) (n v : ℕ) (bs rs : List Binding)
    → Captured bs rs
    → Has name v (back bs)
    → search_scopes name bs rs n ≡ some (v, record { lexical = bs; refs = rs; next_value = n })
unfolding back
search_scopes-again name n v bs rs (outermost b) h = search-hit name b [] [] [] n v h
search_scopes-again name n v bs rs (inner {b} {c} {r} f g more) h = search-hit name b r _ _ n v h

update_env-again :
    (name : Text) (env : ExecutionEnv) (o : Option (ℕ × ScopesFrom))
    → search_scopes name env.lexical env.refs env.next_value ≡ o
    → Search name env.lexical o
    → search_local_binding name (update_env env o).1 ≡ update_env env o
unfolding search_local_binding update_env
update_env-again name env o e (missed u) = rw e
update_env-again name env o e (hit v s h) =
    rw (search_scopes-again name s.next_value v s.lexical s.refs h.captured h.found)

-- From well-formed scopes, a second search for the same name answers the same and changes nothing.
pub search_local_binding-again :
    (name : Text) (env : ExecutionEnv)
    → IsScoped env
    → search_local_binding name (search_local_binding name env).1 ≡ search_local_binding name env
search_local_binding-again name env c =
    unfold search_local_binding in
    update_env-again name env _ refl (search_scopes-Search name env.next_value c)

-- The scope outside holds what is captured.
leave-search :
    (b : Binding) (bs rs : List Binding) (n : ℕ) (k : Text) (w : ℕ) {a : Binding}
    → Captured (a ∷ b ∷ bs) rs
    → Has k w (back rs)
    → search_scopes k (b ∷ bs) (pop_back rs) n
      ≡ some (w, record { lexical = b ∷ bs; refs = pop_back rs; next_value = n })
unfolding back pop_back
leave-search b bs rs n k w (inner f g c) h = search_scopes-again k n w (b ∷ bs) _ c (f k w h)

leave-search_env :
    (env : ExecutionEnv) (b : Binding) (bs : List Binding) (k : Text) (w : ℕ) {a : Binding}
    → Captured (a ∷ b ∷ bs) env.refs
    → Has k w (back env.refs)
    → search_local_binding k (record env { lexical = b ∷ bs; refs = pop_back env.refs })
      ≡ (some w, record env { lexical = b ∷ bs; refs = pop_back env.refs })
unfolding search_local_binding
leave-search_env env b bs k w c h =
    rw (leave-search b bs env.refs env.next_value k w c h, update_env) refl

leave-search_left :
    (env : ExecutionEnv) {env' : ExecutionEnv} (a b : Binding) (bs : List Binding) (k : Text)
    (w : ℕ)
    → exit_from env (a ∷ b ∷ bs) ≡ some env'
    → Captured (a ∷ b ∷ bs) env.refs
    → Has k w (back env.refs)
    → search_local_binding k env' ≡ (some w, env')
unfolding exit_from
leave-search_left env {env'} a b bs k w e c h =
    let same : record env { lexical = b ∷ bs; refs = pop_back env.refs } ≡ env' = cc in
    subst (λ x. search_local_binding k x ≡ (some w, x)) same (leave-search_env env b bs k w c h)

-- From well-formed scopes, when a scope inside another one is left, a name that the references made for
-- its function bind is found at once in the scope outside, with the value captured, and the search changes
-- nothing.
pub exit_last_scope-captured :
    (env : ExecutionEnv) {env' : ExecutionEnv} (a b : Binding) (bs : List Binding) (k : Text)
    (w : ℕ)
    → IsScoped env
    → env.lexical ≡ a ∷ b ∷ bs
    → exit_last_scope env ≡ some env'
    → Has k w (get_current_refs env)
    → search_local_binding k env' ≡ (some w, env')
unfolding exit_last_scope get_current_refs
exit_last_scope-captured env {env'} a b bs k w c e x h =
    leave-search_left env a b bs k w (subst (λ l. exit_from env l ≡ some env') e x)
      (subst (λ l. Captured l env.refs) e c) h
