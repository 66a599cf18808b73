-- ===== src/Codegen/Session.antt =====
-- The state that src/codegen.cc works on, its globals `eenv`, `builder` and `module` of
-- src/include/driver.hh: the scopes, the place where the builder inserts, and what it and the module have
-- been asked for. A value, a block and a function are the number of the request that makes them, which
-- the scopes share with their own new values.
use llscheme.Base.{ℕ, suc, List, ◌∷◌, Text, Option, none, some}
use llscheme.Base.Outcome.{ok, Routine, throw, scope_error}
use llscheme.Env.{
  ExecutionEnv, add_binding, add_global_binding, new_scope, exit_last_scope, search_local_binding,
  search_global_binding,
}
use llscheme.Codegen.{GlobalObject}

pub data Operand : Type 0 where
  constant : ℕ → Operand
  value : ℕ → Operand

-- `LSObjGetPointerAddr` of an object, with the index of the member; `GEP1`; and a pointer itself
pub data Address : Type 0 where
  member : ℕ → ℕ → Address
  element : ℕ → ℕ → Address
  pointee : ℕ → Address

-- A call names a function of the runtime; casts are left out.
pub data Request : Type 0 where
  new_object : ℕ → Request
  global : GlobalObject → Request
  call : Text → List Operand → Request
  call_pointer : ℕ → List Operand → Request
  load : Address → Request
  store : ℕ → Address → Request
  store_int : ℕ → Address → Request
  store_null : Address → Request
  alloca : ℕ → Request
  is_nonzero : ℕ → Request
  create_function : Text → Request
  parameter : ℕ → ℕ → Request
  create_block : Text → Request
  push_back push_front : ℕ → ℕ → Request
  branch : ℕ → Request
  cond_branch : ℕ → ℕ → ℕ → Request
  return : ℕ → Request
  phi : List (ℕ × ℕ) → Request
  replace_uses : ℕ → ℕ → Request
  erase : ℕ → Request

-- the insert point: the end of a block, with the function that the block is in
pub record Place : Type 0 where
  pub block : ℕ
  pub func : ℕ

-- The requests are kept with their number and the block they are for, the latest first.
pub record Session : Type 0 where
  pub eenv : ExecutionEnv
  pub place : Place
  pub requests : List (ℕ × ℕ × Request)

abbrev pub Generate : Type 0 → Type 0
Generate A = Routine Session A

abbrev pub next_number : ExecutionEnv → ExecutionEnv
next_number env = record env { next_value = suc env.next_value }

unfoldable pub emit : Request → Generate ℕ
emit r s =
    let n = s.eenv.next_value in
    ok (n, record s { eenv = next_number s.eenv; requests = (n, s.place.block, r) ∷ s.requests })

-- `GetInsertBlock`, with its parent, and `SetInsertPoint`
unfoldable pub insert_place : Generate Place
insert_place s = ok (s.place, s)

unfoldable pub set_insert_point : Place → Generate (Unit {0})
set_insert_point p s = ok (tt, record s { place = p })

unfoldable pub search_local : Text → Generate (Option ℕ)
search_local name s =
    let (val, env) = search_local_binding name s.eenv in ok (val, record s { eenv = env })

unfoldable pub search_global : Text → Generate (Option ℕ)
search_global name s = ok (search_global_binding name s.eenv, s)

unfoldable pub bind_local : Text → ℕ → Generate (Unit {0})
bind_local name val s = ok (tt, record s { eenv = add_binding name val s.eenv })

unfoldable pub bind_global : Text → ℕ → Generate (Unit {0})
bind_global name val s = ok (tt, record s { eenv = add_global_binding name val s.eenv })

unfoldable pub enter_scope : Generate (Unit {0})
enter_scope s = ok (tt, record s { eenv = new_scope s.eenv })

abbrev pub left : Option ExecutionEnv → Generate (Unit {0})
left none = throw scope_error
left (some env) = λ s. ok (tt, record s { eenv = env })

unfoldable pub leave_scope : Generate (Unit {0})
leave_scope s = left (exit_last_scope s.eenv) s
