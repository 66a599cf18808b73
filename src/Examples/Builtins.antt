-- ===== src/Examples/Builtins.antt =====
-- The built-in procedures that a program names: src/driver.cc.
use llscheme.Base.{◌≡◌, refl, [], ◌∷◌, codes}
use llscheme.Base.Outcome.{ok}
use llscheme.Env.Outermost.{outermost_env}
use llscheme.Driver.{Module, builtin_proc, check_builtin_procs}
use llscheme.Driver.Resolved.{Checked, check_builtin_procs-again}

-- A program that names `car`, whose symbol is the value 0.
abbrev with_car : Module
with_car = record {
  eenv = outermost_env ((codes "car", 0) ∷ []) [] [] 1;
  functions = [];
  code = [];
}

check_builtin_procs-again_example :
    (c : Checked builtin_proc with_car (check_builtin_procs with_car)) × (check_builtin_procs
        c.after
      ≡ ok (tt, c.after))
check_builtin_procs-again_example =
    check_builtin_procs-again with_car ((codes "car", 0) ∷ []) [] [] 1 refl
