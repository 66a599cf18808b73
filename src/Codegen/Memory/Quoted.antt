-- ===== src/Codegen/Memory/Quoted.antt =====
-- About the code of a quoted datum, and what it builds when it runs.
pub mod Builds
pub mod Whole
use llscheme.Base.{
  ℕ, zero, suc, ◌+◌, ◌<◌, ◌≡◌, ◌≢◌, refl, subst, Bool, true, false, ◌&&◌, ◌||◌, not, Bool-cases,
  inl, inr, some, List, [], ◌∷◌, ◌++◌, arith, length, Text, ◌==◌, codes, if◌then◌else◌,
}
use llscheme.Base.Outcome.{Outcome, ok}
use llscheme.Ast.{Node, Nodes, number, boolean, symbol, string, sexpr, none_left, arg}
use llscheme.Codegen.{
  Code, Instruction, call_new_object, global_object, store_int, store_pointer, ObjectType,
  pair_type, nil_type, emit, obj_new, set_member, number_fits_int32, atoi, simple_number_init,
  string_init, symbol_init, code_gen_number, code_gen_boolean, code_gen_no_bind, code_gen_tail,
}
use llscheme.Codegen.Memory.{
  Slot, empty, value, int, text, Cell, idle, object, At, At-below, Creates, new_cell, global_cell,
  created, created-keeps, Stores, int_stored, pointer_stored, stored, stored-keeps,
}

-- Every dotted list has an argument in front of its dot and one behind it, and every number is short.
mutual
  pub data Quotable : Node → Type 0 where
    q_number : (t : Text) → number_fits_int32 t ≡ true → Quotable (number t)
    q_boolean : (b : Bool) → Quotable (boolean b)
    q_symbol : (t : Text) → Quotable (symbol t)
    q_string : (t : Text) → Quotable (string t)
    q_empty : (d : Bool) → Quotable (sexpr none_left d)
    q_list :
        {a : Node} {as' : Nodes} {d : Bool}
        → Quotable a
        → QuotableTail as' d
        → Quotable (sexpr (arg a as') d)

  pub data QuotableTail : Nodes → Bool → Type 0 where
    q_end : QuotableTail none_left false
    q_dot : {a : Node} → Quotable a → QuotableTail (arg a none_left) true
    q_last : {a : Node} → Quotable a → QuotableTail (arg a none_left) false
    q_more :
        {a b : Node} {bs : Nodes} {d : Bool}
        → Quotable a
        → QuotableTail (arg b bs) d
        → QuotableTail (arg a (arg b bs)) d

-- The objects at a value are the datum: 6 is the type of pairs and 7 of the empty list.
mutual
  pub data DatumAt (code : Code) : ℕ → Node → Type 0 where
    is_number :
        {n : ℕ} (t : Text) → At code n (object 1 (int (atoi t)) empty) → DatumAt code n (number t)
    is_boolean :
        {n : ℕ} (b : Bool)
        → At code n (object 2 (int (if b then 1 else 0)) empty)
        → DatumAt code n (boolean b)
    is_symbol : {n : ℕ} (t : Text) → At code n (object 4 empty (text t)) → DatumAt code n (symbol t)
    is_string : {n : ℕ} (t : Text) → At code n (object 5 (text t) empty) → DatumAt code n (string t)
    is_empty :
        {n : ℕ} (d : Bool) → At code n (object 7 empty empty) → DatumAt code n (sexpr none_left d)
    is_list :
        {n x y : ℕ} {a : Node} {as' : Nodes} {d : Bool}
        → At code n (object 6 (value x) (value y))
        → DatumAt code x a
        → TailAt code y as' d
        → DatumAt code n (sexpr (arg a as') d)

  pub data TailAt (code : Code) : ℕ → Nodes → Bool → Type 0 where
    at_end : {n : ℕ} → At code n (object 7 empty empty) → TailAt code n none_left false
    at_dot : {n : ℕ} {a : Node} → DatumAt code n a → TailAt code n (arg a none_left) true
    at_more :
        {n x y : ℕ} {a : Node} {as' : Nodes} {d : Bool}
        → At code n (object 6 (value x) (value y))
        → DatumAt code x a
        → TailAt code y as' d
        → TailAt code n (arg a as') d

abbrev pub filled : Slot → Bool
filled empty = false
filled _ = true

-- an object that nothing is missing of
abbrev pub complete : Cell → Bool
complete idle = true
complete (object w a b) =
    (filled a || filled b || w == 7) && (not (w == 6) || (filled a && filled b))

-- every complete cell is as it was
abbrev pub Grows : Code → Code → Type 0
Grows code code' = (k : ℕ) (c : Cell) → complete c ≡ true → At code k c → At code' k c

mutual
  pub DatumAt-Grows :
      {code code' : Code} {n : ℕ} {v : Node}
      → Grows code code'
      → DatumAt code n v
      → DatumAt code' n v
  DatumAt-Grows g (is_number t a) = is_number t (g _ _ refl a)
  DatumAt-Grows g (is_boolean b a) = is_boolean b (g _ _ refl a)
  DatumAt-Grows g (is_symbol t a) = is_symbol t (g _ _ refl a)
  DatumAt-Grows g (is_string t a) = is_string t (g _ _ refl a)
  DatumAt-Grows g (is_empty d a) = is_empty d (g _ _ refl a)
  DatumAt-Grows g (is_list a v r) = is_list (g _ _ refl a) (DatumAt-Grows g v) (TailAt-Grows g r)

  TailAt-Grows :
      {code code' : Code} {n : ℕ} {vs : Nodes} {d : Bool}
      → Grows code code'
      → TailAt code n vs d
      → TailAt code' n vs d
  TailAt-Grows g (at_end a) = at_end (g _ _ refl a)
  TailAt-Grows g (at_dot v) = at_dot (DatumAt-Grows g v)
  TailAt-Grows g (at_more a v r) = at_more (g _ _ refl a) (DatumAt-Grows g v) (TailAt-Grows g r)
