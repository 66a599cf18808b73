-- ===== src/Codegen/Eval/Functions.antt =====
-- The routines behind the forms of src/codegen.cc: names, calls, constants and `createFunction`.
use llscheme.Base.{ℕ, false, codes, suc, ◌≡◌, sym, Option, none, some, List, [], ◌∷◌, ◌++◌, Text}
use llscheme.Env.Maps.{Binding}
use llscheme.Env.Names.{is_some}
use llscheme.Codegen
use llscheme.Codegen.{
  Instruction, call_new_object, global_object, store_int, store_pointer, ObjectType, unspec_type,
  func_type, code_member, null, type_word, string_object,
}
use llscheme.Codegen.Session.{Generate}
use llscheme.Codegen.Calls.{
  global_or_new, get_global, local_or_global, code_gen_symbol, local_or_loaded, eval_symbol,
  call_with, store_arg, apply, eval_parsed, request, new_unspec,
}
use llscheme.Codegen.Forms.{
  fill_freelist, close_over, symbol_free, check_symbol, define_symbol, if_code,
}
use llscheme.Codegen.Eval.Check.{Names, in_scope, Verdict, accept, ◌also◌, check_new}
use llscheme.Codegen.Eval.Judged.{
  Sound, pure-Sound, throw-Sound, bind-Sound, then-Sound, last-Sound, fact-Sound,
}
use llscheme.Codegen.Eval.Scoped.{
  Scoped, emit-Sound, insert_place-Sound, set_insert_point-Sound, bind_global-Sound,
  search_global-Sound, search_local-Sound,
}

-- a routine that keeps the names in scope and the function
abbrev pub Keeps :
    (Γ : Names) (Γs : List Names) (f : ℕ) {A : Type 0} → Verdict → Generate A → Type 0
Keeps Γ Γs f v m = Sound (Scoped Γ Γs f) v m (λ _. Scoped Γ Γs f)

module _ {Γ : Names} {Γs : List Names} {f : ℕ} where
  global_or_new-Keeps : (name : Text) (o : Option ℕ) → Keeps Γ Γs f accept (global_or_new name o)
  unfolding global_or_new
  global_or_new-Keeps name (some g) = pure-Sound g
  global_or_new-Keeps name none =
      then-Sound (emit-Sound _) λ g. then-Sound (bind_global-Sound name g) λ _. pure-Sound g

  get_global-Keeps : (name : Text) → Keeps Γ Γs f accept (get_global name)
  unfolding get_global
  get_global-Keeps name = then-Sound (search_global-Sound name) λ o. global_or_new-Keeps name o

  local_or_global-Keeps :
      (name : Text) (o : Option ℕ) → Keeps Γ Γs f accept (local_or_global name o)
  unfolding local_or_global
  local_or_global-Keeps name (some v) = pure-Sound v
  local_or_global-Keeps name none = get_global-Keeps name

  pub code_gen_symbol-Keeps : (name : Text) → Keeps Γ Γs f accept (code_gen_symbol name)
  unfolding code_gen_symbol
  code_gen_symbol-Keeps name =
      then-Sound (search_local-Sound name) λ o. fact-Sound λ e. local_or_global-Keeps name o

  local_or_loaded-Keeps :
      (name : Text) (o : Option ℕ) → Keeps Γ Γs f accept (local_or_loaded name o)
  unfolding local_or_loaded
  local_or_loaded-Keeps name (some v) = pure-Sound v
  local_or_loaded-Keeps name none =
      then-Sound (get_global-Keeps name) λ s. then-Sound (emit-Sound _) λ _. emit-Sound _

  pub eval_symbol-Keeps : (name : Text) → Keeps Γ Γs f accept (eval_symbol name)
  unfolding eval_symbol
  eval_symbol-Keeps name =
      then-Sound (search_local-Sound name) λ o. fact-Sound λ e. local_or_loaded-Keeps name o

  pub store_arg-Keeps : (addr i val : ℕ) → Keeps Γ Γs f accept (store_arg addr i val)
  unfolding store_arg
  store_arg-Keeps addr i val = then-Sound (emit-Sound _) λ _. pure-Sound tt

  pub apply-Keeps :
      {v w : Verdict} {head : Generate ℕ} (size : ℕ) {store_args : ℕ → Generate (Unit {0})}
      → Keeps Γ Γs f v head
      → ((addr : ℕ) → Keeps Γ Γs f w (store_args addr))
      → Keeps Γ Γs f (v also w) (apply head size store_args)
  unfolding apply call_with
  apply-Keeps size h k = bind-Sound h λ func. then-Sound (emit-Sound _) λ _.
      then-Sound (emit-Sound _) λ fptr.
        then-Sound (emit-Sound _)
          λ freelist. then-Sound (emit-Sound _) λ addr. last-Sound (k addr) λ _. emit-Sound _

  pub request-Keeps : (i : Instruction) → Keeps Γ Γs f accept (request i)
  unfolding request
  request-Keeps (call_new_object w) = emit-Sound _
  request-Keeps (global_object g) = emit-Sound _
  request-Keeps (store_int v (o, i)) = emit-Sound _
  request-Keeps (store_pointer v (o, i)) = emit-Sound _

  pub obj_new-Keeps : (type : ObjectType) → Keeps Γ Γs f accept (Codegen.obj_new request type)
  unfolding Codegen.obj_new
  obj_new-Keeps type = request-Keeps (call_new_object (type_word type))

  pub string_init-Keeps : (str : Text) → Keeps Γ Γs f accept (Codegen.string_init request str)
  unfolding Codegen.string_init
  string_init-Keeps str = request-Keeps (global_object (string_object str))

  pub eval_parsed-Keeps : (val : Text) → Keeps Γ Γs f accept (eval_parsed val)
  unfolding eval_parsed
  eval_parsed-Keeps val =
      apply-Keeps 1 (eval_symbol-Keeps _)
        λ addr. then-Sound (string_init-Keeps val) λ str. store_arg-Keeps addr 0 str

  pub function_init-Keeps :
      (func name : Text) → Keeps Γ Γs f accept (Codegen.function_init request func name)
  unfolding Codegen.function_init
  function_init-Keeps func name = request-Keeps (
      global_object (record {
        word = type_word func_type;
        u1 = code_member func;
        u2 = null;
        is_constant = false;
        name = codes "_funcobj_" ++ name;
      }))

  fill_freelist-Keeps :
      (refs : Binding) (freelist i : ℕ) → Keeps Γ Γs f accept (fill_freelist refs freelist i)
  unfolding fill_freelist
  fill_freelist-Keeps [] freelist i = pure-Sound tt
  fill_freelist-Keeps ((name, val) ∷ refs) freelist i =
      then-Sound (emit-Sound _) λ _. fill_freelist-Keeps refs freelist (suc i)

  pub close_over-Keeps : (g obj : ℕ) (refs : Binding) → Keeps Γ Γs f accept (close_over g obj refs)
  unfolding close_over
  close_over-Keeps g obj [] = then-Sound (emit-Sound _) λ _. pure-Sound obj
  close_over-Keeps g obj (r ∷ refs) = then-Sound (emit-Sound _) λ o. then-Sound (emit-Sound _) λ _.
      then-Sound (emit-Sound _) λ _. then-Sound (emit-Sound _) λ _. then-Sound (emit-Sound _) λ l.
        then-Sound (fill_freelist-Keeps (r ∷ refs) l 0)
          λ _. then-Sound (emit-Sound _) λ _. pure-Sound o

  symbol_free-Keeps :
      (name : Text) (o : Option ℕ)
      → is_some o ≡ in_scope name Γ
      → Keeps Γ Γs f (check_new Γ name) (symbol_free o name)
  unfolding symbol_free check_new
  symbol_free-Keeps name none e = rw (sym e) (pure-Sound tt)
  symbol_free-Keeps name (some v) e = rw (sym e) (throw-Sound _)

  check_symbol-Keeps : (name : Text) → Keeps Γ Γs f (check_new Γ name) (check_symbol name)
  unfolding check_symbol
  check_symbol-Keeps name =
      then-Sound (search_local-Sound name) λ o. fact-Sound λ e. symbol_free-Keeps name o e

  pub new_unspec-Keeps : Keeps Γ Γs f accept new_unspec
  unfolding new_unspec
  new_unspec-Keeps = obj_new-Keeps unspec_type

  pub define_symbol-Keeps :
      {w : Verdict} (name : Text) {val : Generate ℕ}
      → Keeps Γ Γs f w val
      → Keeps Γ Γs f (check_new Γ name also w) (define_symbol name val)
  unfolding define_symbol
  define_symbol-Keeps name h = bind-Sound (check_symbol-Keeps name) λ _.
      then-Sound (code_gen_symbol-Keeps name)
        λ sym. last-Sound h λ v. then-Sound (emit-Sound _) λ _. new_unspec-Keeps

  pub if_code-Keeps :
      {u v w : Verdict} {test then_code else_code : Generate ℕ}
      → Keeps Γ Γs f u test
      → Keeps Γ Γs f v then_code
      → Keeps Γ Γs f w else_code
      → Keeps Γ Γs f (u also (v also w)) (if_code test then_code else_code)
  unfolding if_code
  if_code-Keeps h k l = bind-Sound h λ t. then-Sound (emit-Sound _) λ _.
      then-Sound (emit-Sound _) λ _. then-Sound insert_place-Sound λ here. fact-Sound λ e.
        then-Sound (emit-Sound _) λ b1. then-Sound (emit-Sound _) λ _.
          then-Sound (emit-Sound _) λ b2. then-Sound (emit-Sound _) λ b3.
            then-Sound (emit-Sound _) λ _. then-Sound (set_insert_point-Sound _ e) λ _.
              bind-Sound k λ _. then-Sound (emit-Sound _) λ _. then-Sound insert_place-Sound λ _.
                fact-Sound λ _. then-Sound (emit-Sound _) λ _.
                  then-Sound (set_insert_point-Sound _ e) λ _. last-Sound l λ _.
                    then-Sound (emit-Sound _) λ _. then-Sound insert_place-Sound λ _.
                      fact-Sound λ _.
                        then-Sound (emit-Sound _)
                          λ _. then-Sound (set_insert_point-Sound _ e) λ _. emit-Sound _
