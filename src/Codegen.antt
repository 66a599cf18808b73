-- ===== src/Codegen.antt =====
-- src/codegen.cc and the object constructors of src/include/driver.hh: the code that quoted data and
-- constants become. LLVM is a sequence of calls to its builder.
pub mod Memory
pub mod Session
pub mod Calls
pub mod Forms
pub mod Eval
pub mod Numbers
use llscheme.Base.{
  ℕ, zero, suc, ◌+◌, ◌*◌, ◌-◌, Bool, true, false, ◌&&◌, [], ◌∷◌, ◌++◌, List, Text, codes, length,
  leb, ltb, if◌then◌else◌,
}
use llscheme.Base.Outcome.{ok, fault, Outcome, Routine, ◌>>=◌, ◌>>◌, pure, undefined, out_of_bounds}
use llscheme.Lexer.Chars.{is_decimal}
use llscheme.Ast.{Node, Nodes, number, boolean, symbol, string, sexpr, none_left, arg}

-- `std::isdigit` on every character
pub all_digits : Text → Bool
unfolding is_decimal
all_digits [] = true
all_digits (c ∷ s) = is_decimal c && all_digits s

-- `numberFitsInt32`
unfoldable pub number_fits_int32 : Text → Bool
unfolding all_digits
number_fits_int32 val = if ltb 9 (length val) then false else all_digits val

-- `std::atoi` on digits
pub atoi_from : ℕ → Text → ℕ
atoi_from n [] = n
atoi_from n (c ∷ s) = atoi_from (n * 10 + (c - 48)) s

unfoldable pub atoi : Text → ℕ
unfolding atoi_from
atoi = atoi_from 0

-- The types of object.h.
pub data ObjectType : Type 0 where
  unspec_type number_type boolean_type vector_type symbol_type string_type pair_type nil_type
        func_type :
      ObjectType

abbrev pub type_word : ObjectType → ℕ
type_word unspec_type = 0
type_word number_type = 1
type_word boolean_type = 2
type_word vector_type = 3
type_word symbol_type = 4
type_word string_type = 5
type_word pair_type = 6
type_word nil_type = 7
type_word func_type = 8

-- The initializer of `u1` or `u2` of an object: a pointer made from an `int`, to the bytes of a
-- literal and its zero, or to a function.
pub data Member : Type 0 where
  null : Member
  int_member : ℕ → Member
  text_member : Text → Member
  code_member : Text → Member

-- A global variable of the type of objects, with its initializer.
pub record GlobalObject : Type 0 where
  pub word : ℕ
  pub u1 : Member
  pub u2 : Member
  pub is_constant : Bool
  pub name : Text

-- What the builder and the module are asked for. A value is the number of the request that makes it.
-- An address is that of the member with the given index of an object, and a store casts as it needs.
pub data Instruction : Type 0 where
  call_new_object : ℕ → Instruction
  global_object : GlobalObject → Instruction
  store_int : ℕ → ℕ × ℕ → Instruction
  store_pointer : ℕ → ℕ × ℕ → Instruction

abbrev pub Code : Type 0
Code = List Instruction

abbrev pub Build : Type 0 → Type 0
Build A = Routine Code A

-- appending an instruction; its value is its number
unfoldable pub emit : Instruction → Build ℕ
emit i code = ok (length code, code ++ i ∷ [])

-- the object that `LSObjStringInit` defines
abbrev pub string_object : Text → GlobalObject
string_object str = record {
  word = type_word string_type;
  u1 = text_member str;
  u2 = null;
  is_constant = true;
  name = codes "_strobj_";
}

-- `LSObjGetPointerAddr` and `LSObjGetValueAddr`, which casts the same address
abbrev pub pointer_addr : ℕ → ℕ → ℕ × ℕ
pointer_addr lso index = (lso, index)

abbrev pub value_addr : ℕ → ℕ → ℕ × ℕ
value_addr lso index = pointer_addr lso index

-- A routine that generates code works on any state, by what `request` makes of an instruction: the value
-- that the instruction has.
module _ {S : Type 0} (request : Instruction → Routine S ℕ) where
  -- `LSObjNew`
  unfoldable pub obj_new : ObjectType → Routine S ℕ
  obj_new type = request (call_new_object (type_word type))

  -- `LSObjSimpleNumberInit`
  unfoldable pub simple_number_init : ℕ → Routine S ℕ
  simple_number_init val = request (
      global_object (record {
        word = type_word number_type;
        u1 = int_member val;
        u2 = null;
        is_constant = true;
        name = codes "_numobj_";
      }))

  -- `LSObjStringInit`
  unfoldable pub string_init : Text → Routine S ℕ
  string_init str = request (global_object (string_object str))

  -- `LSObjSymbolInit`
  unfoldable pub symbol_init : Text → Routine S ℕ
  symbol_init str = request (
      global_object (record {
        word = type_word symbol_type;
        u1 = null;
        u2 = text_member str;
        is_constant = true;
        name = codes "_csymobj_";
      }))

  -- `LSObjFunctionInit`, with the function by its name
  unfoldable pub function_init : Text → Text → Routine S ℕ
  function_init func name = request (
      global_object (record {
        word = type_word func_type;
        u1 = code_member func;
        u2 = null;
        is_constant = false;
        name = codes "_funcobj_" ++ name;
      }))

  -- `BooleanASTNode::codeGen`
  unfoldable pub code_gen_boolean : Bool → Routine S ℕ
  unfolding obj_new
  code_gen_boolean b = do
    obj ← obj_new boolean_type
    request (store_int (if b then 1 else 0) (value_addr obj 1))
    pure obj

  -- the store of an object in a member of an object: 1 is the car, 2 the cdr
  unfoldable pub set_member : ℕ → ℕ → ℕ → Routine S (Unit {0})
  set_member obj index val = do request (store_pointer val (pointer_addr obj index)); pure tt

  -- The body of the loop of `SExprASTNode::codeGen`: a pair for one element behind the last pair.
  unfoldable pub append_pair : Routine S ℕ → ℕ → Routine S ℕ
  unfolding obj_new set_member
  append_pair element pair = do
    curr ← obj_new pair_type
    x ← element
    set_member curr 1 x
    set_member pair 2 curr
    pure curr

  -- the end of a list that is not dotted
  unfoldable pub end_list : ℕ → Routine S (Unit {0})
  unfolding obj_new set_member
  end_list pair = do e ← obj_new nil_type; set_member pair 2 e

-- Quoted data and numbers: `eval_parsed` generates the code of `(string->number "...")`, evaluated, where
-- a number is not short.
module _ {S : Type 0} (request : Instruction → Routine S ℕ) (eval_parsed : Text → Routine S ℕ) where
  -- `NumberASTNode::codeGen`
  unfoldable pub code_gen_number : Text → Routine S ℕ
  unfolding atoi number_fits_int32 simple_number_init
  code_gen_number val =
      if number_fits_int32 val then simple_number_init request (atoi val) else eval_parsed val

  unfoldable mutual
    unfolding obj_new set_member symbol_init string_init code_gen_number code_gen_boolean
        append_pair end_list

    -- `codeGenNoBind`, which quoted data are built with: only a symbol differs from `codeGen`.
    pub code_gen_no_bind : Node → Routine S ℕ
    code_gen_no_bind (number val) = code_gen_number val
    code_gen_no_bind (boolean b) = code_gen_boolean request b
    code_gen_no_bind (symbol s) = symbol_init request s
    code_gen_no_bind (string s) = string_init request s
    code_gen_no_bind (sexpr none_left d) = obj_new request nil_type
    code_gen_no_bind (sexpr (arg a as') d) = do
      head ← obj_new request pair_type
      x ← code_gen_no_bind a
      set_member request head 1 x
      code_gen_tail as' d head
      pure head

    -- The loop of `SExprASTNode::codeGen` from the second argument on, and what ends the list: in a
    -- dotted list the last argument, which has to be there, and otherwise the empty list.
    pub code_gen_tail : Nodes → Bool → ℕ → Routine S (Unit {0})
    code_gen_tail none_left false pair = end_list request pair
    code_gen_tail none_left true pair = undefined out_of_bounds
    code_gen_tail (arg a none_left) true pair = do
      x ← code_gen_no_bind a
      set_member request pair 2 x
    code_gen_tail (arg a none_left) false pair = do
      curr ← append_pair request (code_gen_no_bind a) pair
      end_list request curr
    code_gen_tail (arg a (arg b bs)) d pair = do
      curr ← append_pair request (code_gen_no_bind a) pair
      code_gen_tail (arg b bs) d curr
