-- ===== src/Codegen/Eval.antt =====
-- `codeGenEval` of src/codegen.cc, with the handlers of the special forms.
pub mod Check
pub mod Judged
pub mod Scoped
pub mod Functions
pub mod Closures
pub mod Data
pub mod Checked
pub mod Legal
pub mod Accepted
use llscheme.Base.{
  ℕ, zero, suc, ◌+◌, Bool, true, false, Option, none, some, List, [], ◌∷◌, ◌++◌, Text, codes,
  same_text, if◌then◌else◌,
}
use llscheme.Base.Outcome.{
  Outcome, ok, throws, fault, diverge, ◌>>=◌, ◌>>◌, pure, throw, undefined, looping, out_of_bounds,
  bad_cast, null_pointer, bad_syntax, not_found,
}
use llscheme.Ast.{Node, Nodes, number, boolean, symbol, string, sexpr, none_left, arg, args_size}
use llscheme.Env.{get_current_refs}
use llscheme.Env.Maps.{Binding}
use llscheme.Codegen.{
  Code, Build, Instruction, call_new_object, global_object, string_object, obj_new, type_word,
  symbol_type, func_type, unspec_type, code_gen_number, code_gen_boolean, string_init, symbol_init,
  function_init, code_gen_no_bind, null, text_member,
}
use llscheme.Codegen.Session.{
  Operand, constant, value, Address, member, element, pointee, Request, Place, Session, Generate,
  emit, insert_place, set_insert_point, search_local, search_global, bind_local, bind_global,
  enter_scope, leave_scope,
}
use llscheme.Codegen.Calls.{
  global_or_new, get_global, local_or_global, code_gen_symbol, local_or_loaded, eval_symbol,
  call_with, store_arg, apply, eval_parsed, request, new_unspec,
}
use llscheme.Codegen.Forms.{
  Keyword, builtin_syntax, handler_in, handler_of, load_func_args, replace_temporary, load_captured,
  fill_freelist, count, make_prolog, close_over, current_refs, display_name, generate_function,
  create_function, symbol_free, check_symbol, define_symbol, if_code, end_begin, handled, begin_key,
  define_key, lambda_key, quote_key, if_key,
}

unfoldable mutual
  pub code_gen_eval : Node → Generate ℕ
  code_gen_eval (number val) = code_gen_number request eval_parsed val
  code_gen_eval (boolean b) = code_gen_boolean request b
  code_gen_eval (string str) = string_init request str
  code_gen_eval (symbol name) = eval_symbol name
  code_gen_eval (sexpr none_left d) = code_gen_no_bind request eval_parsed (sexpr none_left d)
  code_gen_eval (sexpr (arg (symbol name) rest) d) =
      handled (handler_of name)
        (apply (eval_symbol name) (args_size rest) λ addr. eval_args rest addr 0)
        (handle_begin rest d) (handle_define rest) (handle_lambda rest) (handle_quote rest)
        (handle_if rest)
  code_gen_eval (sexpr (arg (sexpr as' d') rest) d) =
      apply (code_gen_eval (sexpr as' d')) (args_size rest) λ addr. eval_args rest addr 0
  code_gen_eval (sexpr (arg _ rest) d) = throw (bad_syntax (codes "not a function"))

  pub eval_args : Nodes → ℕ → ℕ → Generate (Unit {0})
  eval_args none_left addr i = pure tt
  eval_args (arg a rest) addr i = do
    v ← code_gen_eval a
    store_arg addr i v
    eval_args rest addr (suc i)

  -- the loops of `handleBegin` and `generateFuncBody` behind their first round
  pub eval_rest : Nodes → ℕ → Generate ℕ
  eval_rest none_left v = pure v
  eval_rest (arg a rest) v = do w ← code_gen_eval a; eval_rest rest w

  pub handle_begin : Nodes → Bool → Generate ℕ
  handle_begin none_left d = do v ← new_unspec; end_begin d v
  handle_begin (arg a rest) d = do w ← code_gen_eval a; v ← eval_rest rest w; end_begin d v

  pub handle_define : Nodes → Generate ℕ
  handle_define none_left = throw (bad_syntax (codes "too few arguments for define"))
  handle_define (arg a none_left) = throw (bad_syntax (codes "too few arguments for define"))
  handle_define (arg (symbol name) (arg v none_left)) = define_symbol name (code_gen_eval v)
  handle_define (arg (symbol name) (arg v (arg w ws))) =
      throw (bad_syntax (codes "defining symbol takes 2 arguments"))
  handle_define (arg (sexpr none_left d) (arg v vs)) = undefined out_of_bounds
  handle_define (arg (sexpr (arg (symbol name) formals) d) (arg v vs)) =
      define_symbol name (create_function formals name (code_gen_eval v >>= λ w. eval_rest vs w))
  handle_define (arg (sexpr (arg _ formals) d) (arg v vs)) = undefined bad_cast
  handle_define (arg _ (arg v vs)) = throw (bad_syntax (codes "bad syntax for define"))

  pub handle_lambda : Nodes → Generate ℕ
  handle_lambda none_left = throw (bad_syntax (codes "too few arguments for lambda"))
  handle_lambda (arg a none_left) = throw (bad_syntax (codes "too few arguments for lambda"))
  handle_lambda (arg (sexpr formals d) (arg v vs)) =
      create_function formals [] (code_gen_eval v >>= λ w. eval_rest vs w)
  handle_lambda (arg _ (arg v vs)) = throw (bad_syntax (codes "lambda expects argument list"))

  pub handle_quote : Nodes → Generate ℕ
  handle_quote (arg v none_left) = code_gen_no_bind request eval_parsed v
  handle_quote _ = throw (bad_syntax (codes "quote takes only one argument"))

  pub handle_if : Nodes → Generate ℕ
  handle_if (arg t (arg a none_left)) = if_code (code_gen_eval t) (code_gen_eval a) new_unspec
  handle_if (arg t (arg a (arg b none_left))) =
      if_code (code_gen_eval t) (code_gen_eval a) (code_gen_eval b)
  handle_if _ = throw (bad_syntax (codes "if takes 2 or 3 arguments"))
