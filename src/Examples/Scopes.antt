-- ===== src/Examples/Scopes.antt =====
-- Scopes that are searched and left: src/env.cc.
use llscheme.Base.{◌≡◌, refl, some, [], ◌∷◌, Text, codes}
use llscheme.Env.{
  ExecutionEnv, new_env, add_binding, new_scope, exit_last_scope, search_local_binding,
  search_scopes, get_current_refs, back,
}
use llscheme.Env.Maps.{find, insert}
use llscheme.Env.Invariant.{
  IsScoped, Reach, at_first, then_do, adding, entering, searching, Reach-IsScoped, Answered,
  search_local_binding-Answered, search_local_binding-again, exit_last_scope-captured,
}

abbrev a_name : Text
a_name = codes "a"

-- `a` is bound in the outermost scope, and searched for from two scopes further in.
abbrev nested : ExecutionEnv
nested = new_scope (new_scope (add_binding a_name 7 new_env))

abbrev searched : ExecutionEnv
searched = (search_local_binding a_name nested).1

nested-Reach : Reach nested
nested-Reach = then_do (then_do (then_do at_first (adding a_name 7 _)) (entering _)) (entering _)

searched-Reach : Reach searched
searched-Reach = then_do nested-Reach (searching a_name nested)

-- Each scope makes a reference of its own, the outer one first.
searched_value : search_local_binding a_name nested ≡ (some 1, searched)
unfolding search_local_binding search_scopes new_scope find add_binding new_env insert
searched_value = refl

Reach-IsScoped_example : IsScoped searched
Reach-IsScoped_example = Reach-IsScoped searched-Reach

search_local_binding-Answered_example : Answered a_name nested (search_local_binding a_name nested)
search_local_binding-Answered_example =
    search_local_binding-Answered a_name nested (Reach-IsScoped nested-Reach)

search_local_binding-again_example :
    search_local_binding a_name searched ≡ search_local_binding a_name nested
search_local_binding-again_example =
    search_local_binding-again a_name nested (Reach-IsScoped nested-Reach)

abbrev left : ExecutionEnv
left = record {
  global = [];
  lexical = ((a_name, 0) ∷ []) ∷ ((a_name, 7) ∷ []) ∷ [];
  refs = ((a_name, 7) ∷ []) ∷ [] ∷ [];
  next_value = 2;
}

-- The innermost scope captures the value 0, which the scope outside it has for `a`.
exit_last_scope-captured_example : search_local_binding a_name left ≡ (some 0, left)
unfolding search_local_binding exit_last_scope get_current_refs back search_scopes new_scope find
    add_binding new_env insert
exit_last_scope-captured_example =
    exit_last_scope-captured searched ((a_name, 1) ∷ []) ((a_name, 0) ∷ [])
      (((a_name, 7) ∷ []) ∷ []) a_name 0 (Reach-IsScoped searched-Reach) refl refl refl
