-- ===== src/Codegen/Calls.antt =====
-- The code of symbols, of calls, and of constants, for `codeGenEval` of src/codegen.cc: each is a routine
-- over the routines that generate the code of its parts.
use llscheme.Base.{ℕ, false, Option, none, some, [], ◌∷◌, Text, codes}
use llscheme.Base.Outcome.{◌>>=◌, ◌>>◌, pure}
use llscheme.Codegen.{
  Instruction, call_new_object, global_object, string_init, obj_new, type_word, symbol_type,
  unspec_type, null, text_member,
}
use llscheme.Codegen.Session.{
  constant, value, member, element, Request, Generate, emit, search_local, search_global,
  bind_global,
}

-- `SymbolASTNode::getGlobal`: the object of a symbol is made when it is first asked for.
unfoldable pub global_or_new : Text → Option ℕ → Generate ℕ
global_or_new name (some g) = pure g
global_or_new name none = do
  g ← emit (
      Request.global (record {
        word = type_word symbol_type;
        u1 = null;
        u2 = text_member name;
        is_constant = false;
        name = codes "_symobj_";
      }))
  bind_global name g
  pure g

unfoldable pub get_global : Text → Generate ℕ
get_global name = do g ← search_global name; global_or_new name g

-- `SymbolASTNode::codeGen`
unfoldable pub local_or_global : Text → Option ℕ → Generate ℕ
local_or_global name (some v) = pure v
local_or_global name none = get_global name

unfoldable pub code_gen_symbol : Text → Generate ℕ
code_gen_symbol name = do v ← search_local name; local_or_global name v

-- `SymbolASTNode::codeGenEval`
unfoldable pub local_or_loaded : Text → Option ℕ → Generate ℕ
local_or_loaded name (some v) = pure v
local_or_loaded name none = do
  s ← get_global name
  emit (Request.call (codes "lsrt_check_symbol_unbound") (value s ∷ []))
  emit (Request.load (member s 1))

unfoldable pub eval_symbol : Text → Generate ℕ
eval_symbol name = do v ← search_local name; local_or_loaded name v

-- The end of `SExprASTNode::codeGenEval`: the call of `func`; `store_args` puts the arguments at an
-- address.
unfoldable pub call_with : ℕ → ℕ → (ℕ → Generate (Unit {0})) → Generate ℕ
call_with func size store_args = do
  emit (Request.call (codes "lsrt_func_p") (value func ∷ []))
  fptr ← emit (Request.load (member func 1))
  freelist ← emit (Request.load (member func 2))
  addr ← emit (Request.alloca size)
  store_args addr
  emit (Request.call_pointer fptr (constant size ∷ value addr ∷ value freelist ∷ []))

unfoldable pub store_arg : ℕ → ℕ → ℕ → Generate (Unit {0})
store_arg addr i val = do emit (Request.store val (element addr i)); pure tt

-- a call of what the first argument evaluates to
unfoldable pub apply : Generate ℕ → ℕ → (ℕ → Generate (Unit {0})) → Generate ℕ
apply head size store_args = do func ← head; call_with func size store_args

-- What the routines of Codegen ask for, of the builder and the module.
unfoldable pub request : Instruction → Generate ℕ
request (call_new_object w) = emit (Request.new_object w)
request (global_object g) = emit (Request.global g)
request (Instruction.store_int v (o, i)) = emit (Request.store_int v (member o i))
request (Instruction.store_pointer v (o, i)) = emit (Request.store v (member o i))

-- `NumberASTNode::codeGen` on a long number: `(string->number "...")`, evaluated
unfoldable pub eval_parsed : Text → Generate ℕ
unfolding string_init request
eval_parsed val =
    apply (eval_symbol (codes "string->number")) 1
      λ addr. do str ← string_init request val; store_arg addr 0 str

unfoldable pub new_unspec : Generate ℕ
unfolding obj_new request
new_unspec = obj_new request unspec_type
