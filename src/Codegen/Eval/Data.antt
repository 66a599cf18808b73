-- ===== src/Codegen/Eval/Data.antt =====
-- The code of constants and quoted data, as `codeGenEval` of src/codegen.cc makes it.
use llscheme.Base.{ℕ, codes, Bool, true, false, ◌||◌, List, Text, if◌then◌else◌}
use llscheme.Base.Outcome.{fault, out_of_bounds, ◌>>=◌, ◌>>◌, pure}
use llscheme.Ast.{Node, Nodes, number, boolean, symbol, string, sexpr, none_left, arg}
use llscheme.Codegen.{
  pair_type, nil_type, boolean_type, number_type, symbol_type, type_word, null, int_member,
  text_member, atoi, global_object, store_int, store_pointer, pointer_addr, value_addr,
  code_gen_no_bind, code_gen_tail, code_gen_number, code_gen_boolean, append_pair, end_list,
  obj_new, set_member, number_fits_int32, simple_number_init, symbol_init,
}
use llscheme.Codegen.Session.{Generate}
use llscheme.Codegen.Calls.{request, eval_parsed}
use llscheme.Codegen.Eval.Check.{Names, Verdict, accept, has_lone_dot, any_lone_dot, check_datum}
use llscheme.Codegen.Eval.Judged.{pure-Sound, undefined-Sound, bind-Sound, then-Sound, last-Sound}
use llscheme.Codegen.Eval.Functions.{
  Keeps, request-Keeps, obj_new-Keeps, string_init-Keeps, eval_parsed-Keeps,
}

-- the verdict on data, by whether a dotted list among them has nothing in front of its dot
abbrev lone : Bool → Verdict
lone b = if b then fault out_of_bounds else accept

-- whether the rest of a list has such a part, or is itself missing
abbrev lone_tail : Nodes → Bool → Bool
lone_tail none_left d = d
lone_tail (arg a as') d = any_lone_dot (arg a as')

module _ {Γ : Names} {Γs : List Names} {f : ℕ} where
  bind-Keeps :
      {A B : Type 0} (b c : Bool) {m : Generate A} {k : A → Generate B}
      → Keeps Γ Γs f (lone b) m
      → ((a : A) → Keeps Γ Γs f (lone c) (k a))
      → Keeps Γ Γs f (lone (b || c)) (m >>= k)
  bind-Keeps true c h k = bind-Sound h k
  bind-Keeps false c h k = bind-Sound h k

  either-Keeps :
      (b : Bool) {m n : Generate ℕ}
      → Keeps Γ Γs f accept m
      → Keeps Γ Γs f accept n
      → Keeps Γ Γs f accept (if b then m else n)
  either-Keeps true h k = h
  either-Keeps false h k = k

  simple_number-Keeps : (val : ℕ) → Keeps Γ Γs f accept (simple_number_init request val)
  unfolding simple_number_init
  simple_number-Keeps val = request-Keeps (
      global_object (record {
        word = type_word number_type;
        u1 = int_member val;
        u2 = null;
        is_constant = true;
        name = codes "_numobj_";
      }))

  symbol_init-Keeps : (str : Text) → Keeps Γ Γs f accept (symbol_init request str)
  unfolding symbol_init
  symbol_init-Keeps str = request-Keeps (
      global_object (record {
        word = type_word symbol_type;
        u1 = null;
        u2 = text_member str;
        is_constant = true;
        name = codes "_csymobj_";
      }))

  pub number-Keeps : (val : Text) → Keeps Γ Γs f accept (code_gen_number request eval_parsed val)
  unfolding code_gen_number
  number-Keeps val =
      either-Keeps (number_fits_int32 val) (simple_number-Keeps (atoi val)) (eval_parsed-Keeps val)

  pub boolean-Keeps : (b : Bool) → Keeps Γ Γs f accept (code_gen_boolean request b)
  unfolding code_gen_boolean
  boolean-Keeps b = then-Sound (obj_new-Keeps boolean_type) λ obj.
      then-Sound (request-Keeps (store_int (if b then 1 else 0) (value_addr obj 1)))
        λ _. pure-Sound obj

  set_member-Keeps : (obj index val : ℕ) → Keeps Γ Γs f accept (set_member request obj index val)
  unfolding set_member
  set_member-Keeps obj index val =
      then-Sound (request-Keeps (store_pointer val (pointer_addr obj index))) λ _. pure-Sound tt

  end_list-Keeps : (pair : ℕ) → Keeps Γ Γs f accept (end_list request pair)
  unfolding end_list
  end_list-Keeps pair = then-Sound (obj_new-Keeps nil_type) λ e. set_member-Keeps pair 2 e

  append_pair-Keeps :
      {v : Verdict} {element : Generate ℕ} (pair : ℕ)
      → Keeps Γ Γs f v element
      → Keeps Γ Γs f v (append_pair request element pair)
  unfolding append_pair
  append_pair-Keeps pair h = then-Sound (obj_new-Keeps pair_type) λ curr. last-Sound h λ x.
      then-Sound (set_member-Keeps curr 1 x)
        λ _. then-Sound (set_member-Keeps pair 2 curr) λ _. pure-Sound curr

  -- the pair at the head of a list, over its tail
  head-Keeps :
      (b c : Bool) {element : Generate ℕ} {tail : ℕ → Generate (Unit {0})}
      → Keeps Γ Γs f (lone b) element
      → ((head : ℕ) → Keeps Γ Γs f (lone c) (tail head))
      → Keeps Γ Γs f (lone (b || c)) (do
        head ← obj_new request pair_type
        x ← element
        set_member request head 1 x
        tail head
        pure head)
  head-Keeps b c h k = then-Sound (obj_new-Keeps pair_type) λ head.
      bind-Keeps b c h
        λ x. then-Sound (set_member-Keeps head 1 x) λ _. last-Sound (k head) λ _. pure-Sound head

  mutual
    unfolding code_gen_no_bind has_lone_dot

    datum-Keeps :
        (v : Node) → Keeps Γ Γs f (lone (has_lone_dot v)) (code_gen_no_bind request eval_parsed v)
    datum-Keeps (number val) = number-Keeps val
    datum-Keeps (boolean b) = boolean-Keeps b
    datum-Keeps (symbol s) = symbol_init-Keeps s
    datum-Keeps (string s) = string_init-Keeps s
    datum-Keeps (sexpr none_left d) = obj_new-Keeps nil_type
    datum-Keeps (sexpr (arg a none_left) d) =
        head-Keeps (has_lone_dot a) d (datum-Keeps a) λ head. tail-Keeps none_left d head
    datum-Keeps (sexpr (arg a (arg b bs)) d) =
        head-Keeps (has_lone_dot a) (any_lone_dot (arg b bs)) (datum-Keeps a)
          λ head. tail-Keeps (arg b bs) d head

    tail-Keeps :
        (as' : Nodes) (d : Bool) (pair : ℕ)
        → Keeps Γ Γs f (lone (lone_tail as' d)) (code_gen_tail request eval_parsed as' d pair)
    tail-Keeps none_left false pair = end_list-Keeps pair
    tail-Keeps none_left true pair = undefined-Sound out_of_bounds
    tail-Keeps (arg a none_left) true pair =
        bind-Keeps (has_lone_dot a) false (datum-Keeps a) λ x. set_member-Keeps pair 2 x
    tail-Keeps (arg a none_left) false pair =
        bind-Keeps (has_lone_dot a) false (append_pair-Keeps pair (datum-Keeps a))
          λ curr. end_list-Keeps curr
    tail-Keeps (arg a (arg b bs)) d pair =
        bind-Keeps (has_lone_dot a) (any_lone_dot (arg b bs))
          (append_pair-Keeps pair (datum-Keeps a)) λ curr. tail-Keeps (arg b bs) d curr

  pub check_datum-Keeps :
      (v : Node) → Keeps Γ Γs f (check_datum v) (code_gen_no_bind request eval_parsed v)
  unfolding check_datum
  check_datum-Keeps v = datum-Keeps v
