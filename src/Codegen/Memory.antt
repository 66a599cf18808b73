-- ===== src/Codegen/Memory.antt =====
-- The memory that requests to the builder leave when the code runs: one cell for each request, in
-- order, so that a value is the address of its cell.
pub mod Quoted
use llscheme.Base.{
  ℕ, zero, suc, ◌+◌, ◌≤◌, ◌<◌, ◌≡◌, ◌≢◌, refl, ap, ◌∙◌, sym, Bool, true, false, ◌&&◌, ◌||◌, not,
  Option, none, some, List, [], ◌∷◌, ◌++◌, arith, length, length-append, Text, ◌==◌,
}
use llscheme.Codegen.{
  Code, Instruction, call_new_object, global_object, store_int, store_pointer, GlobalObject, Member,
  null, int_member, text_member, code_member,
}

-- A member of an object: still zero, or what has been put there.
pub data Slot : Type 0 where
  empty : Slot
  value : ℕ → Slot
  int : ℕ → Slot
  text : Text → Slot

-- A request that makes no object has an idle cell.
pub data Cell : Type 0 where
  idle : Cell
  object : ℕ → Slot → Slot → Cell

abbrev pub Memory : Type 0
Memory = List Cell

abbrev pub slot_of : Member → Slot
slot_of null = empty
slot_of (int_member n) = int n
slot_of (text_member s) = text s
slot_of (code_member s) = text s

abbrev pub with_slot : ℕ → Slot → Cell → Cell
with_slot i s idle = idle
with_slot zero s (object w a b) = object w a b
with_slot (suc zero) s (object w a b) = object w s b
with_slot (suc (suc i)) s (object w a b) = object w a s

abbrev pub set_slot : ℕ → ℕ → Slot → Memory → Memory
set_slot n i s [] = []
set_slot zero i s (c ∷ m) = with_slot i s c ∷ m
set_slot (suc n) i s (c ∷ m) = c ∷ set_slot n i s m

abbrev pub step : Instruction → Memory → Memory
step (call_new_object w) m = m ++ object w empty empty ∷ []
step (global_object g) m = m ++ object g.word (slot_of g.u1) (slot_of g.u2) ∷ []
step (store_int v (o, i)) m = set_slot o i (int v) m ++ idle ∷ []
step (store_pointer v (o, i)) m = set_slot o i (value v) m ++ idle ∷ []

run_from : Code → Memory → Memory
run_from [] m = m
run_from (i ∷ code) m = run_from code (step i m)

unfoldable pub run : Code → Memory
unfolding run_from
run code = run_from code []

run_from-snoc :
    (code : Code) (i : Instruction) (m : Memory)
    → run_from (code ++ i ∷ []) m ≡ step i (run_from code m)
unfolding run_from
run_from-snoc [] i m = refl
run_from-snoc (j ∷ code) i m = run_from-snoc code i (step j m)

run-snoc : (code : Code) (i : Instruction) → run (code ++ i ∷ []) ≡ step i (run code)
unfolding run
run-snoc code i = run_from-snoc code i []

length-set_slot : (n i : ℕ) (s : Slot) (m : Memory) → length (set_slot n i s m) ≡ length m
length-set_slot n i s [] = refl
length-set_slot zero i s (c ∷ m) = refl
length-set_slot (suc n) i s (c ∷ m) = ap suc (length-set_slot n i s m)

length-cells : (m k : Memory) → length (m ++ k) ≡ length m + length k
length-cells = length-append

length-step : (i : Instruction) (m : Memory) → length (step i m) ≡ suc (length m)
length-step (call_new_object w) m = omega (arith, length-cells m (object w empty empty ∷ []))
length-step (global_object g) m =
    omega (arith, length-cells m (object g.word (slot_of g.u1) (slot_of g.u2) ∷ []))
length-step (store_int v (o, i)) m =
    omega (arith, length-cells (set_slot o i (int v) m) (idle ∷ []), length-set_slot o i (int v) m)
length-step (store_pointer v (o, i)) m =
    omega
      (arith, length-cells (set_slot o i (value v) m) (idle ∷ []), length-set_slot o i (value v) m)

length-run_from : (code : Code) (m : Memory) → length (run_from code m) ≡ length code + length m
unfolding run_from
length-run_from [] m = omega arith
length-run_from (i ∷ code) m = omega (arith, length-run_from code (step i m), length-step i m)

pub length-run : (code : Code) → length (run code) ≡ length code
unfolding run
length-run code = omega (arith, length-run_from code [])

unfoldable pub cell_in : Memory → ℕ → Option Cell
cell_in [] n = none
cell_in (c ∷ m) zero = some c
cell_in (c ∷ m) (suc n) = cell_in m n

-- The cell of a value after the requests.
abbrev pub At : Code → ℕ → Cell → Type 0
At code n c = cell_in (run code) n ≡ some c

cell_in-append :
    (m k : Memory) (n : ℕ) {c : Cell} → cell_in m n ≡ some c → cell_in (m ++ k) n ≡ some c
unfolding cell_in
cell_in-append [] k n e = cc
cell_in-append (d ∷ m) k zero e = e
cell_in-append (d ∷ m) k (suc n) e = cell_in-append m k n e

cell_in-last : (m : Memory) (c : Cell) → cell_in (m ++ c ∷ []) (length m) ≡ some c
unfolding cell_in
cell_in-last [] c = refl
cell_in-last (d ∷ m) c = cell_in-last m c

cell_in-set_slot :
    (m : Memory) (n i : ℕ) (s : Slot) {c : Cell}
    → cell_in m n ≡ some c
    → cell_in (set_slot n i s m) n ≡ some (with_slot i s c)
unfolding cell_in
cell_in-set_slot [] n i s e = cc
cell_in-set_slot (d ∷ m) zero i s e = cc
cell_in-set_slot (d ∷ m) (suc n) i s e = cell_in-set_slot m n i s e

cell_in-set_slot_other :
    (m : Memory) (n k i : ℕ) (s : Slot) → k ≢ n → cell_in (set_slot n i s m) k ≡ cell_in m k
unfolding cell_in
cell_in-set_slot_other [] n k i s d = refl
cell_in-set_slot_other (c ∷ m) zero zero i s d = absurd (d refl)
cell_in-set_slot_other (c ∷ m) zero (suc k) i s d = refl
cell_in-set_slot_other (c ∷ m) (suc n) zero i s d = refl
cell_in-set_slot_other (c ∷ m) (suc n) (suc k) i s d =
    cell_in-set_slot_other m n k i s (λ e. d (ap suc e))

-- a request that makes a cell and changes no other
pub data Creates : Instruction → Cell → Type 0 where
  new_cell : (w : ℕ) → Creates (call_new_object w) (object w empty empty)
  global_cell :
      (g : GlobalObject) → Creates (global_object g) (object g.word (slot_of g.u1) (slot_of g.u2))

creating : {i : Instruction} {c : Cell} (m : Memory) → Creates i c → step i m ≡ m ++ c ∷ []
creating m (new_cell w) = refl
creating m (global_cell g) = refl

pub created :
    (code : Code) {i : Instruction} {c : Cell} → Creates i c → At (code ++ i ∷ []) (length code) c
created code {i} {c} k =
    rw (run-snoc code i, creating (run code) k, ← length-run code) (cell_in-last (run code) c)

pub created-keeps :
    (code : Code) {i : Instruction} {c d : Cell} (n : ℕ)
    → Creates i c
    → At code n d
    → At (code ++ i ∷ []) n d
created-keeps code {i} n k a =
    rw (run-snoc code i, creating (run code) k) (cell_in-append (run code) _ n a)

-- a request that puts something in a member of an object, and changes nothing else
pub data Stores : Instruction → ℕ → ℕ → Slot → Type 0 where
  int_stored : (v n i : ℕ) → Stores (store_int v (n, i)) n i (int v)
  pointer_stored : (v n i : ℕ) → Stores (store_pointer v (n, i)) n i (value v)

storing :
    {j : Instruction} {n i : ℕ} {s : Slot} (m : Memory)
    → Stores j n i s
    → step j m ≡ set_slot n i s m ++ idle ∷ []
storing m (int_stored v n i) = refl
storing m (pointer_stored v n i) = refl

pub stored :
    (code : Code) {j : Instruction} {n i : ℕ} {s : Slot} {c : Cell}
    → Stores j n i s
    → At code n c
    → At (code ++ j ∷ []) n (with_slot i s c)
stored code {j} {n} {i} {s} k a =
    rw (run-snoc code j, storing (run code) k)
      (cell_in-append (set_slot n i s (run code)) (idle ∷ []) n
        (cell_in-set_slot (run code) n i s a))

pub stored-keeps :
    (code : Code) {j : Instruction} {n i : ℕ} {s : Slot} (k : ℕ) {c : Cell}
    → Stores j n i s
    → k ≢ n
    → At code k c
    → At (code ++ j ∷ []) k c
stored-keeps code {j} {n} {i} {s} k w d a =
    rw (run-snoc code j, storing (run code) w)
      (cell_in-append (set_slot n i s (run code)) (idle ∷ []) k
        (cell_in-set_slot_other (run code) n k i s d ∙ a))

cell_in-below : (m : Memory) (n : ℕ) {c : Cell} → cell_in m n ≡ some c → n < length m
unfolding cell_in
cell_in-below [] n e = cc
cell_in-below (d ∷ m) zero e = omega arith
cell_in-below (d ∷ m) (suc n) e = omega (arith, cell_in-below m n e)

pub At-below : (code : Code) (n : ℕ) {c : Cell} → At code n c → n < length code
At-below code n a = omega (arith, cell_in-below (run code) n a, length-run code)
