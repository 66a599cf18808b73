-- ===== src/Codegen/Memory/Quoted/Whole.antt =====
-- `codeGenNoBind` on a whole node, by recursion on it.
use llscheme.Base.{Text, ℕ, refl, Bool, true, [], ◌∷◌, ◌++◌, length}
use llscheme.Base.Outcome.{◌>>=◌, ◌>>◌, pure}
use llscheme.Ast.{Node, Nodes, sexpr, none_left, arg}
use llscheme.Codegen.{
  pair_type, Code, Build, call_new_object, store_pointer, emit, obj_new, set_member, string_init,
  symbol_init, code_gen_no_bind, code_gen_tail,
}
use llscheme.Codegen.Memory.{
  empty, value, object, At, new_cell, global_cell, created, created-keeps, pointer_stored, stored,
  stored-keeps,
}
use llscheme.Codegen.Memory.Quoted.{
  Quotable, QuotableTail, q_number, q_boolean, q_symbol, q_string, q_empty, q_list, q_end, q_dot,
  q_last, q_more, DatumAt, is_symbol, is_string, is_empty, is_list, at_dot, DatumAt-Grows,
}
use llscheme.Codegen.Memory.Quoted.Builds.{
  Built, Finished, emit-Built, number-Built, boolean-Built, old-ne, Grows-but, end_list-Finished,
  append_pair-Linked, Linked-Finished,
}

-- The pair at the head of a list, and its tail.
head-Built :
    (element : Build ℕ) (tail : ℕ → Build (Unit {0})) (a : Node) (vs : Nodes) (d : Bool)
    (code : Code)
    → ((code' : Code) → Built code' a (element code'))
    → ((code' : Code) (p w : ℕ)
        → At code' p (object 6 (value w) empty)
        → Finished code' p w vs d (tail p code'))
    → Built code (sexpr (arg a vs) d) (
        (do
          head ← obj_new emit pair_type
          x ← element
          set_member emit head 1 x
          tail head
          pure head)
          code)
unfolding obj_new set_member emit
head-Built element tail a vs d code make finish =
    let head = length code in
    let B = make (code ++ call_new_object 6 ∷ []) in
    let fresh = B.keeps head _ (created code (new_cell 6)) in
    let first = B.built ++ store_pointer B.result (head, 1) ∷ [] in
    let set_here : At first head (object 6 (value B.result) empty) =
      stored B.built (pointer_stored _ _ _) fresh in
    let datum_here : DatumAt first B.result a =
      DatumAt-Grows
        (Grows-but B.built first fresh refl
          (λ k c n b. stored-keeps B.built k (pointer_stored _ _ _) n b))
        B.datum in
    let F = finish first head B.result set_here in
    record {
      result = head;
      built = F.built;
      returns = rw B.returns (rw F.returns refl);
      keeps = λ k c b. F.keeps k c (old-ne code k b) (
          stored-keeps B.built k (pointer_stored _ _ _) (old-ne code k b)
            (B.keeps k c (created-keeps code k (new_cell 6) b)));
      datum =
          is_list F.link (DatumAt-Grows (Grows-but first F.built set_here refl F.keeps) datum_here)
            F.tail;
    }

dot-Finished :
    (element : Build ℕ) (a : Node) (code : Code) (p w : ℕ)
    → ((code' : Code) → Built code' a (element code'))
    → At code p (object 6 (value w) empty)
    → Finished code p w (arg a none_left) true ((do x ← element; set_member emit p 2 x) code)
unfolding set_member emit
dot-Finished element a code p w make b =
    let B = make code in
    let here = B.keeps p _ b in
    let last = B.built ++ store_pointer B.result (p, 2) ∷ [] in
    record {
      rest = B.result;
      built = last;
      returns = rw B.returns refl;
      keeps = λ k c n e. stored-keeps B.built k (pointer_stored _ _ _) n (B.keeps k c e);
      link = stored B.built (pointer_stored _ _ _) here;
      tail = at_dot (
          DatumAt-Grows
            (Grows-but B.built last here refl
              (λ k c n e. stored-keeps B.built k (pointer_stored _ _ _) n e))
            B.datum);
    }

module _ (long : Text → Build ℕ) where
  mutual
    unfolding code_gen_no_bind string_init symbol_init obj_new

    node-Built :
        {v : Node} → Quotable v → (code : Code) → Built code v (code_gen_no_bind emit long v code)
    node-Built (q_number t e) code = number-Built long code t e
    node-Built (q_boolean b) code = boolean-Built code b
    node-Built (q_symbol t) code = emit-Built code _ (global_cell _) λ a. is_symbol t a
    node-Built (q_string t) code = emit-Built code _ (global_cell _) λ a. is_string t a
    node-Built (q_empty d) code = emit-Built code _ (new_cell 7) λ a. is_empty d a
    node-Built (q_list {a} {as'} {d} q r) code =
        head-Built (code_gen_no_bind emit long a) (code_gen_tail emit long as' d) a as' d code
          (λ c. node-Built q c) (λ c p w b. code_gen_tail-Finished r c p w b)

    code_gen_tail-Finished :
        {vs : Nodes} {d : Bool}
        → QuotableTail vs d
        → (code : Code) (p w : ℕ) → At code p (object 6 (value w) empty)
        → Finished code p w vs d (code_gen_tail emit long vs d p code)
    code_gen_tail-Finished q_end code p w b = end_list-Finished code p w b
    code_gen_tail-Finished (q_dot {a} q) code p w b =
        dot-Finished (code_gen_no_bind emit long a) a code p w (λ c. node-Built q c) b
    code_gen_tail-Finished (q_last {a} q) code p w b =
        let L =
          append_pair-Linked (code_gen_no_bind emit long a) a code p w (λ c. node-Built q c) b in
        rw L.returns
          (Linked-Finished L (L.new p _ b) (end_list-Finished L.built L.curr L.member L.pair))
    code_gen_tail-Finished (q_more {a} {b = n} {bs} {d} q r) code p w b =
        let L =
          append_pair-Linked (code_gen_no_bind emit long a) a code p w (λ c. node-Built q c) b in
        rw L.returns (
          Linked-Finished L (L.new p _ b) (code_gen_tail-Finished r L.built L.curr L.member L.pair))

-- The code of a quoted datum whose numbers are short, such as numberFitsInt32 lets through, and in which
-- every dotted list has an argument on each side of its dot: when it runs, the value that codeGenNoBind
-- returns is an object that is the datum, and every object that was made before is what it was.
pub code_gen_no_bind-Built :
    (long : Text → Build ℕ) {v : Node}
    → Quotable v
    → (code : Code) → Built code v (code_gen_no_bind emit long v code)
code_gen_no_bind-Built long q code = node-Built long q code
