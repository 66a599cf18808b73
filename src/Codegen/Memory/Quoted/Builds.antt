-- ===== src/Codegen/Memory/Quoted/Builds.antt =====
-- What `codeGenNoBind` does to the code so far, for each kind of node.
use llscheme.Base.{
  ℕ, ◌≡◌, ◌≢◌, refl, sym, ◌∙◌, subst, Bool, true, false, Bool-cases, inl, inr, some, [], ◌∷◌, ◌++◌,
  arith, length, Text, ◌==◌, ==_iff,
}
use llscheme.Base.Outcome.{Outcome, ok}
use llscheme.Ast.{Node, Nodes, number, boolean, none_left, arg}
use llscheme.Codegen.{
  Code, Build, Instruction, call_new_object, store_pointer, emit, obj_new, set_member, append_pair,
  end_list, number_fits_int32, simple_number_init, code_gen_number, code_gen_boolean,
}
use llscheme.Codegen.Memory.{
  empty, value, Cell, object, At, At-below, Creates, new_cell, global_cell, created, created-keeps,
  int_stored, pointer_stored, stored, stored-keeps,
}
use llscheme.Codegen.Memory.Quoted.{
  DatumAt, TailAt, is_number, is_boolean, at_end, at_more, complete, Grows, DatumAt-Grows,
}

true-ne-false : true ≢ false
true-ne-false e = cc

some-injective : {c d : Cell} → some c ≡ some d → c ≡ d
some-injective e = cc

At-unique : (code : Code) (n : ℕ) {c d : Cell} → At code n c → At code n d → c ≡ d
At-unique code n a b = some-injective (sym a ∙ b)

pub old-ne : (code : Code) (n : ℕ) {c : Cell} → At code n c → n ≢ length code
old-ne code n a e = absurd (omega (arith, At-below code n a))

-- What changes only a cell that is not complete changes no complete one.
pub Grows-but :
    (code code' : Code) {p : ℕ} {i : Cell}
    → At code p i
    → complete i ≡ false
    → ((k : ℕ) (c : Cell) → k ≢ p → At code k c → At code' k c)
    → Grows code code'
Grows-but code code' {p} {i} a e h k c f b = elim (Bool-cases (k == p)) [
  | inr other ↦ h k c (λ same. ground (arith, (==_iff k p))) b
  | inl same ↦ absurd (
      let one : c ≡ i = At-unique code p (subst (λ n. At code n c) ((==_iff k p).0 same) b) a in
      true-ne-false (sym (subst (λ d. complete d ≡ true) one f) ∙ e))
]

-- A routine that makes the objects of a node, and leaves every cell that there was.
pub record Built (code : Code) (v : Node) (r : Outcome (ℕ × Code)) : Type 0 where
  pub result : ℕ
  pub built : Code
  pub returns : r ≡ ok (result, built)
  pub keeps : (k : ℕ) (c : Cell) → At code k c → At built k c
  pub datum : DatumAt built result v

pub emit-Built :
    (code : Code) {i : Instruction} {c : Cell} (v : Node)
    → Creates i c
    → (At (code ++ i ∷ []) (length code) c → DatumAt (code ++ i ∷ []) (length code) v)
    → Built code v (emit i code)
unfolding emit
emit-Built code v k h = record {
  result = length code;
  built = _;
  returns = refl;
  keeps = λ n d a. created-keeps code n k a;
  datum = h (created code k);
}

pub number-Built :
    (long : Text → Build ℕ) (code : Code) (t : Text)
    → number_fits_int32 t ≡ true
    → Built code (number t) (code_gen_number emit long t code)
unfolding code_gen_number simple_number_init
number-Built long code t e = rw e (emit-Built code (number t) (global_cell _) λ a. is_number t a)

pub boolean-Built : (code : Code) (b : Bool) → Built code (boolean b) (code_gen_boolean emit b code)
unfolding code_gen_boolean obj_new emit
boolean-Built code b = record {
  result = length code;
  built = _;
  returns = refl;
  keeps = λ n d a.
      stored-keeps _ n (int_stored _ _ _) (old-ne code n a) (created-keeps code n (new_cell 2) a);
  datum = is_boolean b (stored _ (int_stored _ _ _) (created code (new_cell 2)));
}

-- What `append_pair` leaves: a pair of which the cdr is missing, linked behind the last pair.
pub record Linked (code : Code) (p w : ℕ) (v : Node) (r : Outcome (ℕ × Code)) : Type 0 where
  pub curr : ℕ
  pub member : ℕ
  pub built : Code
  pub returns : r ≡ ok (curr, built)
  pub keeps : (k : ℕ) (c : Cell) → k ≢ p → At code k c → At built k c
  pub new : (k : ℕ) (c : Cell) → At code k c → k ≢ curr
  pub link : At built p (object 6 (value w) (value curr))
  pub pair : At built curr (object 6 (value member) empty)
  pub datum : DatumAt built member v

-- What the tail of a list leaves: the cdr of the last pair is set, to the rest of the list.
pub record Finished (code : Code) (p w : ℕ) (vs : Nodes) (d : Bool) (r : Outcome (Unit {0} × Code))
    : Type 0 where
  pub rest : ℕ
  pub built : Code
  pub returns : r ≡ ok (tt, built)
  pub keeps : (k : ℕ) (c : Cell) → k ≢ p → At code k c → At built k c
  pub link : At built p (object 6 (value w) (value rest))
  pub tail : TailAt built rest vs d

pub end_list-Finished :
    (code : Code) (p w : ℕ)
    → At code p (object 6 (value w) empty)
    → Finished code p w none_left false (end_list emit p code)
unfolding end_list obj_new set_member emit
end_list-Finished code p w a =
    let kept = created-keeps code p (new_cell 7) a in
    record {
      rest = length code;
      built = _;
      returns = refl;
      keeps = λ k c n b.
          stored-keeps _ k (pointer_stored _ _ _) n (created-keeps code k (new_cell 7) b);
      link = stored _ (pointer_stored (length code) p 2) kept;
      tail = at_end (
          stored-keeps _ (length code) (pointer_stored _ _ _) (λ e. old-ne code p a (sym e))
            (created code (new_cell 7)));
    }

pub append_pair-Linked :
    (element : Build ℕ) (v : Node) (code : Code) (p w : ℕ)
    → ((code' : Code) → Built code' v (element code'))
    → At code p (object 6 (value w) empty)
    → Linked code p w v (append_pair emit element p code)
unfolding append_pair obj_new set_member emit
append_pair-Linked element v code p w make a =
    let curr = length code in
    let B = make (code ++ call_new_object 6 ∷ []) in
    let fresh = B.keeps curr _ (created code (new_cell 6)) in
    let old = B.keeps p _ (created-keeps code p (new_cell 6) a) in
    let first = B.built ++ store_pointer B.result (curr, 1) ∷ [] in
    let set_here : At first curr (object 6 (value B.result) empty) =
      stored B.built (pointer_stored _ _ _) fresh in
    let old_here : At first p (object 6 (value w) empty) =
      stored-keeps B.built p (pointer_stored _ _ _) (old-ne code p a) old in
    let datum_here : DatumAt first B.result v =
      DatumAt-Grows
        (Grows-but B.built first fresh refl
          (λ k c n b. stored-keeps B.built k (pointer_stored _ _ _) n b))
        B.datum in
    let second = first ++ store_pointer curr (p, 2) ∷ [] in
    record {
      curr = curr;
      member = B.result;
      built = second;
      returns = rw B.returns refl;
      keeps = λ k c n b. stored-keeps first k (pointer_stored _ _ _) n (
          stored-keeps B.built k (pointer_stored _ _ _) (old-ne code k b)
            (B.keeps k c (created-keeps code k (new_cell 6) b)));
      new = λ k c b. old-ne code k b;
      link = stored first (pointer_stored _ _ _) old_here;
      pair = stored-keeps first curr (pointer_stored _ _ _) (λ e. old-ne code p a (sym e)) set_here;
      datum =
          DatumAt-Grows
            (Grows-but first second old_here refl
              (λ k c n b. stored-keeps first k (pointer_stored _ _ _) n b))
            datum_here;
    }

-- A linked pair, and a finished tail behind it.
pub Linked-Finished :
    {code : Code} {p w : ℕ} {v : Node} {vs : Nodes} {d : Bool} {r : Outcome (ℕ × Code)}
    {r' : Outcome (Unit {0} × Code)} (L : Linked code p w v r)
    → p ≢ L.curr
    → Finished L.built L.curr L.member vs d r'
    → Finished code p w (arg v vs) d r'
Linked-Finished L n F = record {
  rest = L.curr;
  built = F.built;
  returns = F.returns;
  keeps = λ k c m b. F.keeps k c (L.new k c b) (L.keeps k c m b);
  link = F.keeps _ _ n L.link;
  tail =
      at_more F.link (DatumAt-Grows (Grows-but L.built F.built L.pair refl F.keeps) L.datum) F.tail;
}
