-- ===== src/Driver/Resolved.antt =====
-- About what `CheckBuiltinProcs` leaves in the module, and what a second run makes of it.
use llscheme.Base.{
  ℕ, ◌≡◌, refl, ◌∙◌, subst, sym, Bool, Bool-cases, inl, inr, true, false, ◌||◌, List, [], ◌∷◌, ◌++◌,
  Option, none, some, Text, codes, length, same_text,
}
use llscheme.Base.Outcome.{Outcome, ok}
use llscheme.Codegen.{
  emit, function_init, global_object, store_pointer, type_word, func_type, code_member, null,
}
use llscheme.Env.{ExecutionEnv, search_binding}
use llscheme.Env.Maps.{Binding, same_text_refl}
use llscheme.Env.Outermost.{outermost_env, search_binding-outermost}
use llscheme.Driver.{
  Module, Entry, has_text, symbol_of, function_name, builtin_proc, building, look_up, has_function,
  create_function, bind_proc, check_procs, check_builtin_procs,
}

-- What the environment has for a name.
abbrev pub bound : ExecutionEnv → Text → Option ℕ
bound env name = (search_binding name env).0

-- No search changes the environment.
abbrev pub Settled : ExecutionEnv → Type 0
Settled env = (name : Text) → (search_binding name env).1 ≡ env

-- The function of every entry that has a value is among those.
abbrev pub Declared : List Entry → ExecutionEnv → List Text → Type 0
Declared [] env fs = Unit {0}
Declared (e ∷ es) env fs =
    ((v : ℕ) → bound env e.0 ≡ some v → has_text (symbol_of e) fs ≡ true) × Declared es env fs

-- What a check may change.
pub record Extends (m m' : Module) : Type 0 where
  pub same_env : m'.eenv ≡ m.eenv
  pub more : (t : Text) → has_text t m.functions ≡ true → has_text t m'.functions ≡ true

look_up-Settled :
    (name : Text) (m : Module) → Settled m.eenv → look_up name m ≡ ok (bound m.eenv name, m)
unfolding look_up
look_up-Settled name m s = rw (s name) refl

or_true : (b : Bool) → (b || true) ≡ true
or_true true = refl
or_true false = refl

-- Binding one entry.
record Bind (e : Entry) (o : Option ℕ) (m : Module) (r : Outcome (Unit {0} × Module)) : Type 0 where
  after : Module
  returns : r ≡ ok (tt, after)
  extends : Extends m after
  declares : (v : ℕ) → o ≡ some v → has_text (symbol_of e) after.functions ≡ true

bind_proc-Bind : (e : Entry) (o : Option ℕ) (m : Module) → Bind e o m (bind_proc e o m)
unfolding bind_proc has_function create_function building function_init emit
bind_proc-Bind e none m = record {
  after = m;
  returns = refl;
  extends = record { same_env = refl; more = λ t h. h };
  declares = λ v h. cc;
}
bind_proc-Bind e (some val) m = elim (Bool-cases (has_text (symbol_of e) m.functions)) [
  | inl there ↦ record {
    after = m;
    returns = rw there refl;
    extends = record { same_env = refl; more = λ t h. h };
    declares = λ v h. there;
  }
  | inr new ↦ record {
    after = record {
      eenv = m.eenv;
      functions = symbol_of e ∷ m.functions;
      code =
          (m.code
            ++ global_object (record {
              word = type_word func_type;
              u1 = code_member (symbol_of e);
              u2 = null;
              is_constant = false;
              name = codes "_funcobj_" ++ function_name e;
            })
              ∷ [])
          ++ store_pointer (length m.code) (val, 1) ∷ [];
    };
    returns = rw new refl;
    extends = record { same_env = refl; more = λ t h. rw h (or_true (same_text (symbol_of e) t)) };
    declares = λ v h. rw (same_text_refl (symbol_of e)) refl;
  }
]

Declared-more :
    (es : List Entry) (env : ExecutionEnv) (fs gs : List Text)
    → ((t : Text) → has_text t fs ≡ true → has_text t gs ≡ true)
    → Declared es env fs
    → Declared es env gs
Declared-more [] env fs gs h d = tt
Declared-more (e ∷ es) env fs gs h d = ((λ v b. h _ (d.0 v b)), Declared-more es env fs gs h d.1)

-- A check of the entries.
pub record Checked (es : List Entry) (m : Module) (r : Outcome (Unit {0} × Module)) : Type 0 where
  pub after : Module
  pub returns : r ≡ ok (tt, after)
  pub extends : Extends m after
  pub declared : Declared es m.eenv after.functions

check_procs-Checked :
    (es : List Entry) (m : Module) → Settled m.eenv → Checked es m (check_procs es m)
unfolding check_procs
check_procs-Checked [] m s = record {
  after = m;
  returns = refl;
  extends = record { same_env = refl; more = λ t h. h };
  declared = tt;
}
check_procs-Checked (e ∷ es) m s =
    let B = bind_proc-Bind e (bound m.eenv e.0) m in
    let R = check_procs-Checked es B.after (subst Settled (sym B.extends.same_env) s) in
    record {
      after = R.after;
      returns = rw (look_up-Settled e.0 m s) (rw B.returns (rw R.returns refl));
      extends = record {
        same_env = R.extends.same_env ∙ B.extends.same_env;
        more = λ t h. R.extends.more t (B.extends.more t h);
      };
      declared = (
        λ v h. R.extends.more _ (B.declares v h),
        subst (λ env. Declared es env R.after.functions) B.extends.same_env R.declared,
      );
    }

-- An entry with its function, or without a value, asks for nothing.
bound-Declared :
    (e : Entry) (o : Option ℕ) (m : Module)
    → ((v : ℕ) → o ≡ some v → has_text (symbol_of e) m.functions ≡ true)
    → bind_proc e o m ≡ ok (tt, m)
unfolding bind_proc has_function
bound-Declared e none m d = refl
bound-Declared e (some v) m d = rw (d v refl) refl

check_procs-Declared :
    (es : List Entry) (m : Module)
    → Settled m.eenv
    → Declared es m.eenv m.functions
    → check_procs es m ≡ ok (tt, m)
unfolding check_procs
check_procs-Declared [] m s d = refl
check_procs-Declared (e ∷ es) m s d =
    rw (look_up-Settled e.0 m s)
      (rw (bound-Declared e (bound m.eenv e.0) m d.0) (check_procs-Declared es m s d.1))

-- With no scope but the outermost one, CheckBuiltinProcs ends, leaves the environment, only adds
-- functions, declares the function of every built-in procedure that has a value in the environment, and a
-- second run does nothing more.
pub check_builtin_procs-again :
    (m : Module) (g b r : Binding) (n : ℕ)
    → m.eenv ≡ outermost_env g b r n
    → (c : Checked builtin_proc m (check_builtin_procs m)) × (check_builtin_procs c.after
        ≡ ok (tt, c.after))
unfolding check_builtin_procs
check_builtin_procs-again m g b r n e =
    let s : Settled m.eenv =
      subst Settled (sym e) (λ name. search_binding-outermost name g b r n) in
    let c = check_procs-Checked builtin_proc m s in
    let same = sym c.extends.same_env in
    (
      c,
      check_procs-Declared builtin_proc c.after (subst Settled same s)
          (subst (λ env. Declared builtin_proc env c.after.functions) same c.declared),
    )
