-- ===== src/Driver.antt =====
-- src/driver.cc: the built-in procedures, and `CheckBuiltinProcs`, which binds those that a program
-- names.
pub mod Resolved
use llscheme.Base.{
  ℕ, zero, suc, Bool, true, false, ◌||◌, [], ◌∷◌, ◌++◌, List, Option, none, some, Text, codes,
  same_text, if◌then◌else◌,
}
use llscheme.Base.Outcome.{ok, Outcome, Routine, and_then, ◌>>=◌, ◌>>◌, pure}
use llscheme.Codegen.{Code, Build, emit, store_pointer, pointer_addr, function_init}
use llscheme.Env.{ExecutionEnv, search_binding}

-- The global state of the code generator: `eenv`, the functions of `module`, and what has been asked of
-- the builder.
pub record Module : Type 0 where
  pub eenv : ExecutionEnv
  pub functions : List Text
  pub code : Code

abbrev pub Generate : Type 0 → Type 0
Generate A = Routine Module A

unfoldable pub building : {A : Type 0} → Build A → Generate A
building b m = and_then (b m.code) λ (a, code). ok (a, record m { code = code })

unfoldable pub look_up : Text → Generate (Option ℕ)
look_up name m = let (val, env) = search_binding name m.eenv in ok (val, record m { eenv = env })

abbrev pub has_text : Text → List Text → Bool
has_text t [] = false
has_text t (s ∷ ss) = same_text s t || has_text t ss

-- `module->getFunction` and `Function::Create`
unfoldable pub has_function : Text → Generate Bool
has_function name m = ok (has_text name m.functions, m)

unfoldable pub create_function : Text → Generate (Unit {0})
create_function name m = ok (tt, record m { functions = name ∷ m.functions })

-- the entries of the table, `proc` and `builtin`
abbrev pub Entry : Type 0
Entry = Text × Text

abbrev pub builtin_proc : List Entry
builtin_proc =
    (codes "number?", codes "numberp")
    ∷ (codes "complex?", codes "complexp")
    ∷ (codes "real?", codes "realp")
    ∷ (codes "rational?", codes "rationalp")
    ∷ (codes "integer?", codes "integerp")
    ∷ (codes "exact?", codes "exactp")
    ∷ (codes "inexact?", codes "inexactp")
    ∷ (codes "+", codes "plus")
    ∷ (codes "-", codes "minus")
    ∷ (codes "*", codes "multiply")
    ∷ (codes "/", codes "divide")
    ∷ (codes "=", codes "eq")
    ∷ (codes "<", codes "lt")
    ∷ (codes ">", codes "gt")
    ∷ (codes "<=", codes "le")
    ∷ (codes ">=", codes "ge")
    ∷ (codes "display", [])
    ∷ (codes "cons", [])
    ∷ (codes "car", [])
    ∷ (codes "cdr", [])
    ∷ (codes "set-car!", codes "setcar")
    ∷ (codes "set-cdr!", codes "setcdr")
    ∷ (codes "list", [])
    ∷ (codes "list-ref", codes "listref")
    ∷ (codes "length", [])
    ∷ (codes "null?", codes "nullp")
    ∷ (codes "pair?", codes "pairp")
    ∷ (codes "list?", codes "listp")
    ∷ (codes "vector?", codes "vectorp")
    ∷ (codes "vector-length", codes "vlength")
    ∷ (codes "make-vector", codes "mkvector")
    ∷ (codes "vector", [])
    ∷ (codes "vector-ref", codes "vecref")
    ∷ (codes "vector->list", codes "vec2lst")
    ∷ (codes "string?", codes "strp")
    ∷ (codes "symbol?", codes "symp")
    ∷ (codes "string=?", codes "streq")
    ∷ (codes "string-ci=?", codes "strcaseeq")
    ∷ (codes "string-length", codes "strlen")
    ∷ (codes "substring", [])
    ∷ (codes "string-append", codes "strappend")
    ∷ (codes "symbol->string", codes "sym2str")
    ∷ (codes "string->number", codes "string2number")
    ∷ []

-- the name of the function behind its prefix
abbrev pub function_name : Entry → Text
function_name (proc, []) = proc
function_name (proc, c ∷ s) = c ∷ s

abbrev pub symbol_of : Entry → Text
symbol_of e = codes "lsrt_builtin_" ++ function_name e

-- A symbol that the program names, bound unless the function is there already.
unfoldable pub bind_proc : Entry → Option ℕ → Generate (Unit {0})
unfolding building has_function create_function function_init emit
bind_proc e none = pure tt
bind_proc e (some val) = do
  there ← has_function (symbol_of e)
  if there then pure tt else do
    create_function (symbol_of e)
    obj ← building (function_init emit (symbol_of e) (function_name e))
    building (emit (store_pointer obj (pointer_addr val 1)))
    pure tt

unfoldable pub check_procs : List Entry → Generate (Unit {0})
check_procs [] = pure tt
check_procs (e ∷ es) = do val ← look_up e.0; bind_proc e val; check_procs es

-- `CheckBuiltinProcs`
unfoldable pub check_builtin_procs : Generate (Unit {0})
check_builtin_procs = check_procs builtin_proc
