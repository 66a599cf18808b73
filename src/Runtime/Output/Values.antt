-- ===== src/Runtime/Output/Values.antt =====
-- The data that objects stand for, and their written form: for `display` of src/runtime/io.c.
use llscheme.Base.{ℕ, suc, ◌+◌, ◌≡◌, some, List, [], ◌∷◌, ◌++◌, Text, codes, ℤ, pos}
use llscheme.Runtime.Heap.{Object, Heap, object_at}
use llscheme.Runtime.Output.{decimal, Formats}

-- Data: an atom by its text, the empty list, a pair, a vector.
mutual
  pub data Value : Type 0 where
    atom : Text → Value
    empty : Value
    cons : Value → Value → Value
    vec : Values → Value

  pub data Values : Type 0 where
    no_values : Values
    and_value : Value → Values → Values

abbrev pub joined : List Text → Text
joined [] = []
joined (t ∷ []) = t
joined (t ∷ u ∷ us) = t ++ (codes " " ++ joined (u ∷ us))

-- The written form: the elements of a list, separated by spaces, and behind a dot what ends it.
unfoldable mutual
  pub show : Value → Text
  show (atom t) = t
  show empty = codes "()"
  show (cons x y) = codes "(" ++ (joined (show x ∷ elements y) ++ ending y) ++ codes ")"
  show (vec vs) = codes "#(" ++ joined (show_all vs) ++ codes ")"

  pub elements : Value → List Text
  elements (cons x y) = show x ∷ elements y
  elements _ = []

  pub ending : Value → Text
  ending empty = []
  ending (atom t) = codes " . " ++ t
  ending (cons x y) = ending y
  ending (vec vs) = codes " . " ++ codes "#(" ++ joined (show_all vs) ++ codes ")"

  pub show_all : Values → List Text
  show_all no_values = []
  show_all (and_value v vs) = show v ∷ show_all vs

-- how deep `_display` calls itself
unfoldable mutual
  pub depth : Value → ℕ
  depth (atom t) = 0
  depth empty = 0
  depth (cons x y) = suc (depth x + depth y)
  depth (vec vs) = suc (depths vs)

  pub depths : Values → ℕ
  depths no_values = 0
  depths (and_value v vs) = depth v + depths vs

abbrev pub count_values : Values → ℕ
count_values no_values = 0
count_values (and_value v vs) = suc (count_values vs)

module _ (formats : Formats) (h : Heap) where
  -- the texts of the objects that have no parts
  pub data Atom (a : ℕ) : Object → Text → Type 0 where
    an_int : (v : ℤ) → Atom a (Object.number 0 v) (decimal v)
    a_number : (s : ℕ) (v : ℤ) → Atom a (Object.number (suc s) v) (formats.ntos (suc s) v)
    false_value : Atom a (Object.boolean (pos 0)) (codes "#f")
    true_value : (n : ℕ) → Atom a (Object.boolean (pos (suc n))) (codes "#t")
    a_symbol : (d : ℕ) (name : Text) → Atom a (Object.symbol d name) name
    a_string : (s : Text) → Atom a (Object.string s) (b'"' ∷ s ++ codes "\"")
    a_procedure :
        (c : ℕ) (free : List ℕ)
        → Atom a (Object.func c free) (codes "#<procedure " ++ formats.address a ++ codes ">")
    unspecified : Atom a Object.unspec (codes "#<unspecified>")

  mutual
    pub data ValueAt : ℕ → Value → Type 0 where
      is_atom :
          {a : ℕ} {o : Object} {t : Text} → object_at h a ≡ some o → Atom a o t → ValueAt a (atom t)
      is_empty : {a : ℕ} → object_at h a ≡ some Object.nil → ValueAt a empty
      is_pair :
          {a x y : ℕ} {v w : Value}
          → object_at h a ≡ some (Object.pair x y)
          → ValueAt x v
          → ValueAt y w
          → ValueAt a (cons v w)
      is_vector :
          {a : ℕ} {es : List ℕ} {vs : Values}
          → object_at h a ≡ some (Object.vector (pos (count_values vs)) es)
          → ValuesAt es vs
          → ValueAt a (vec vs)

    pub data ValuesAt : List ℕ → Values → Type 0 where
      none_at : ValuesAt [] no_values
      some_at :
          {a : ℕ} {es : List ℕ} {v : Value} {vs : Values}
          → ValueAt a v
          → ValuesAt es vs
          → ValuesAt (a ∷ es) (and_value v vs)
