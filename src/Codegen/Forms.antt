-- ===== src/Codegen/Forms.antt =====
-- The special forms of src/codegen.cc: for each the code that it makes, over the routines that generate the
-- code of its parts, and the functions with their captured names.
use llscheme.Base.{
  ℕ, suc, Bool, true, false, Option, none, some, List, [], ◌∷◌, ◌++◌, Text, codes, same_text,
  if◌then◌else◌,
}
use llscheme.Base.Outcome.{ok, ◌>>=◌, ◌>>◌, pure, throw, bad_syntax, not_found}
use llscheme.Ast.{Nodes, symbol, none_left, arg, args_size}
use llscheme.Env.{get_current_refs}
use llscheme.Env.Maps.{Binding}
use llscheme.Codegen.{type_word, func_type, function_init}
use llscheme.Codegen.Session.{
  constant, value, member, element, pointee, Request, Generate, emit, insert_place,
  set_insert_point, search_local, bind_local, enter_scope, leave_scope,
}
use llscheme.Codegen.Calls.{code_gen_symbol, request, new_unspec}

-- The keys of `builtin_syntax`, and the loop that looks for one.
pub data Keyword : Type 0 where
  begin_key define_key lambda_key quote_key if_key : Keyword

abbrev pub builtin_syntax : List (Text × Keyword)
builtin_syntax =
    (codes "begin", begin_key)
    ∷ (codes "define", define_key)
    ∷ (codes "lambda", lambda_key)
    ∷ (codes "quote", quote_key)
    ∷ (codes "if", if_key)
    ∷ []

pub handler_in : Text → List (Text × Keyword) → Option Keyword
handler_in name [] = none
handler_in name ((key, h) ∷ rest) = if same_text name key then some h else handler_in name rest

unfoldable pub handler_of : Text → Option Keyword
unfolding handler_in
handler_of name = handler_in name builtin_syntax

-- `loadFuncArgs`, from the formal parameter with the index `i` on
unfoldable pub load_func_args : Nodes → ℕ → ℕ → Generate (Unit {0})
load_func_args none_left ai i = pure tt
load_func_args (arg (symbol name) rest) ai i = do
  v ← emit (Request.load (element ai i))
  bind_local name v
  load_func_args rest ai (suc i)
load_func_args (arg _ rest) ai i = throw (bad_syntax (codes "constants found in parameter list"))

-- The loop of the prolog: the temporary value of each captured name gives way to a load from the list.
unfoldable pub replace_temporary : Text → ℕ → ℕ → Option ℕ → Generate (Unit {0})
replace_temporary name ai i none = throw (not_found name)
replace_temporary name ai i (some argval) = do
  v ← emit (Request.load (element ai i))
  emit (Request.replace_uses argval v)
  emit (Request.erase argval)
  pure tt

unfoldable pub load_captured : Binding → ℕ → ℕ → Generate (Unit {0})
load_captured [] ai i = pure tt
load_captured ((name, val) ∷ refs) ai i = do
  argval ← search_local name
  replace_temporary name ai i argval
  load_captured refs ai (suc i)

unfoldable pub fill_freelist : Binding → ℕ → ℕ → Generate (Unit {0})
fill_freelist [] freelist i = pure tt
fill_freelist ((name, val) ∷ refs) freelist i = do
  emit (Request.call (codes "lsrt_fill_freelist") (value freelist ∷ constant i ∷ value val ∷ []))
  fill_freelist refs freelist (suc i)

abbrev pub count : Binding → ℕ
count [] = 0
count (r ∷ refs) = suc (count refs)

-- the prolog, if a name is captured
unfoldable pub make_prolog : ℕ → ℕ → ℕ → Binding → Generate (Unit {0})
make_prolog f bb ai [] = pure tt
make_prolog f bb ai (r ∷ refs) = do
  bbprolog ← emit (Request.create_block (codes "prolog"))
  set_insert_point (record { block = bbprolog; func = f })
  load_captured (r ∷ refs) ai 0
  emit (Request.branch bb)
  emit (Request.push_front f bbprolog)
  pure tt

-- the object of the function, with its free list: a new one at each evaluation, if a name is captured
unfoldable pub close_over : ℕ → ℕ → Binding → Generate ℕ
close_over f obj [] = do emit (Request.store_null (member obj 2)); pure obj
close_over f obj (r ∷ refs) = do
  newobj ← emit (Request.new_object (type_word func_type))
  emit (Request.replace_uses obj newobj)
  emit (Request.erase obj)
  emit (Request.store f (member newobj 1))
  freelist ← emit (Request.call (codes "lsrt_new_freelist") (constant (count (r ∷ refs)) ∷ []))
  fill_freelist (r ∷ refs) freelist 0
  emit (Request.store freelist (member newobj 2))
  pure newobj

unfoldable pub current_refs : Generate Binding
current_refs s = ok (get_current_refs s.eenv, s)

abbrev pub display_name : Text → Text
display_name [] = codes ".anon"
display_name (c ∷ s) = c ∷ s

-- The part of `createFunction` inside the new scope; what comes back are the captured names. The
-- parameter with the index 2 is the free list.
unfoldable pub generate_function : ℕ → Nodes → Generate ℕ → Generate Binding
generate_function f formals body = do
  bb ← emit (Request.create_block (codes "entry"))
  emit (Request.push_back f bb)
  set_insert_point (record { block = bb; func = f })
  argc ← emit (Request.parameter f 0)
  let n = args_size formals
  emit (Request.call (codes "lsrt_check_args_count") (constant n ∷ constant n ∷ value argc ∷ []))
  args ← emit (Request.parameter f 1)
  emit (Request.load (pointee args))
  load_func_args formals args 0
  argval ← body
  emit (Request.return argval)
  refs ← current_refs
  freelist ← emit (Request.parameter f 2)
  make_prolog f bb freelist refs
  pure refs

-- `createFunction`, with the formal parameters from `start` on
unfoldable pub create_function : Nodes → Text → Generate ℕ → Generate ℕ
create_function formals name body = do
  let fname = display_name name
  f ← emit (Request.create_function (codes "_func_" ++ fname))
  obj ← function_init request (codes "_func_" ++ fname) fname
  enter_scope
  prev ← insert_place
  refs ← generate_function f formals body
  set_insert_point prev
  obj' ← close_over f obj refs
  leave_scope
  pure obj'

-- `checkSymbol`
unfoldable pub symbol_free : Option ℕ → Text → Generate (Unit {0})
symbol_free none name = pure tt
symbol_free (some v) name = throw (bad_syntax (codes "re-definition of symbol: " ++ name))

unfoldable pub check_symbol : Text → Generate (Unit {0})
check_symbol name = do v ← search_local name; symbol_free v name

-- `handleDefine` behind its tests: the symbol's object gets what `val` makes.
unfoldable pub define_symbol : Text → Generate ℕ → Generate ℕ
define_symbol name val = do
  check_symbol name
  sym ← code_gen_symbol name
  v ← val
  emit (Request.store v (member sym 1))
  new_unspec

-- `handleIf` behind its test
unfoldable pub if_code : Generate ℕ → Generate ℕ → Generate ℕ → Generate ℕ
if_code test then_code else_code = do
  t ← test
  r ← emit (Request.call (codes "lsrt_test_expr") (value t ∷ []))
  b ← emit (Request.is_nonzero r)
  here ← insert_place
  let func = here.func
  thenbb ← emit (Request.create_block (codes "then"))
  emit (Request.push_back func thenbb)
  elsebb ← emit (Request.create_block (codes "else"))
  mergebb ← emit (Request.create_block (codes "merge"))
  emit (Request.cond_branch b thenbb elsebb)
  set_insert_point (record { block = thenbb; func = func })
  thenval ← then_code
  emit (Request.branch mergebb)
  then_end ← insert_place
  emit (Request.push_back func elsebb)
  set_insert_point (record { block = elsebb; func = func })
  elseval ← else_code
  emit (Request.branch mergebb)
  else_end ← insert_place
  emit (Request.push_back func mergebb)
  set_insert_point (record { block = mergebb; func = func })
  emit (Request.phi ((thenval, then_end.block) ∷ (elseval, else_end.block) ∷ []))

-- the end of `handleBegin`
unfoldable pub end_begin : Bool → ℕ → Generate ℕ
end_begin true v = throw (bad_syntax (codes "unexpected `.' in begin"))
end_begin false v = pure v

-- the handler of a keyword, or else the call
abbrev pub handled :
    Option Keyword
    → Generate ℕ
    → Generate ℕ
    → Generate ℕ
    → Generate ℕ
    → Generate ℕ
    → Generate ℕ
    → Generate ℕ
handled none call begin_form define_form lambda_form quote_form if_form = call
handled (some begin_key) call begin_form define_form lambda_form quote_form if_form = begin_form
handled (some define_key) call begin_form define_form lambda_form quote_form if_form = define_form
handled (some lambda_key) call begin_form define_form lambda_form quote_form if_form = lambda_form
handled (some quote_key) call begin_form define_form lambda_form quote_form if_form = quote_form
handled (some if_key) call begin_form define_form lambda_form quote_form if_form = if_form
