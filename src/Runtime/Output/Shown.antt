-- ===== src/Runtime/Output/Shown.antt =====
-- What `display` of src/runtime/io.c prints, by the data that an object stands for.
use llscheme.Base.{
  ℕ, zero, suc, ◌<◌, ◌≡◌, refl, ap, ◌∙◌, sym, subst, Bool, true, false, some, List, [], ◌∷◌, ◌++◌,
  Text, codes, append_assoc, append-nil, arith,
}
use llscheme.Base.Outcome.{ok, ◌>>◌, pure}
use llscheme.Runtime.Heap.{Object, Heap, object_at, unspec_obj}
use llscheme.Runtime.Utils.{check_args_count}
use llscheme.Runtime.Output.{
  Print, print, unless, Formats, display_cdr, display_elements, display_object, display_from,
  display_first, builtin_display,
}
use llscheme.Runtime.Output.Values.{
  Value, Values, atom, empty, cons, vec, no_values, and_value, joined, show, elements, ending,
  show_all, depth, depths, count_values, Atom, an_int, a_number, false_value, true_value, a_symbol,
  a_string, a_procedure, unspecified, ValueAt, is_atom, is_empty, is_pair, is_vector, ValuesAt,
  none_at, some_at,
}

-- a routine that prints a text
pub record Prints (m : Print) (t : Text) : Type 0 where
  pub prints : (out : Text) → m out ≡ ok (tt, out ++ t)

print-Prints : (t : Text) → Prints (print t) t
unfolding print
print-Prints t = record { prints = λ out. refl }

nothing-Prints : Prints (pure tt) []
nothing-Prints = record { prints = λ out. rw (append-nil out) refl }

then-Prints : {m k : Print} {t u : Text} → Prints m t → Prints k u → Prints (m >> k) (t ++ u)
then-Prints {t} {u} p q = record {
  prints = λ out. rw (p.prints out, q.prints (out ++ t), append_assoc out t u) refl;
}

same-Prints : {m : Print} {t u : Text} → t ≡ u → Prints m t → Prints m u
same-Prints {m} e p = subst (Prints m) e p

-- the text of a tail
abbrev tail_text : Value → Text
tail_text empty = []
tail_text (cons x y) = codes " " ++ joined (show x ∷ elements y) ++ ending y
tail_text (atom t) = codes " . " ++ t
tail_text (vec vs) = codes " . " ++ show (vec vs)

tail_joined : (x y : Value) → show x ++ tail_text y ≡ joined (show x ∷ elements y) ++ ending y
unfolding show elements ending
tail_joined x empty = refl
tail_joined x (atom t) = refl
tail_joined x (cons y z) =
    sym (append_assoc (show x) (codes " " ++ joined (show y ∷ elements z)) (ending z))
tail_joined x (vec vs) = refl

module _ (formats : Formats) (h : Heap) where
  display_object-Prints :
      {a : ℕ} {o : Object} {t : Text} (display : ℕ → Bool → Print) (fp : Bool)
      → Atom formats h a o t
      → Prints (display_object formats h display a fp (some o)) t
  unfolding display_object
  display_object-Prints display fp (an_int v) = print-Prints _
  display_object-Prints display fp (a_number s v) = print-Prints _
  display_object-Prints display fp false_value = print-Prints _
  display_object-Prints display fp (true_value n) = print-Prints _
  display_object-Prints display fp (a_symbol d name) = print-Prints _
  display_object-Prints display fp (a_string s) = print-Prints _
  display_object-Prints display fp (a_procedure c free) = print-Prints _
  display_object-Prints display fp unspecified = print-Prints _

  -- an object of its own, and the rest of a list
  abbrev written : Bool → Value → Text
  written true (cons x y) = joined (show x ∷ elements y) ++ ending y
  written _ v = show v

  alone : (fp : Bool) (v : Value) → elements v ≡ [] → show v ≡ written fp v
  unfolding elements
  alone false v e = refl
  alone true (atom t) e = refl
  alone true empty e = refl
  alone true (vec vs) e = refl
  alone true (cons x y) e = cc

  cdr-Prints :
      {d : ℕ} {v : Value} (display : ℕ → Bool → Print)
      → ValueAt formats h d v
      → Prints (display d true) (written true v)
      → Prints (display_cdr display d (object_at h d)) (tail_text v)
  unfolding display_cdr show
  cdr-Prints display (is_atom e (an_int v)) p = rw e (then-Prints (print-Prints _) p)
  cdr-Prints display (is_atom e (a_number s v)) p = rw e (then-Prints (print-Prints _) p)
  cdr-Prints display (is_atom e false_value) p = rw e (then-Prints (print-Prints _) p)
  cdr-Prints display (is_atom e (true_value n)) p = rw e (then-Prints (print-Prints _) p)
  cdr-Prints display (is_atom e (a_symbol d name)) p = rw e (then-Prints (print-Prints _) p)
  cdr-Prints display (is_atom e (a_string s)) p = rw e (then-Prints (print-Prints _) p)
  cdr-Prints display (is_atom e (a_procedure c free)) p = rw e (then-Prints (print-Prints _) p)
  cdr-Prints display (is_atom e unspecified) p = rw e (then-Prints (print-Prints _) p)
  cdr-Prints display (is_empty e) p = rw e nothing-Prints
  cdr-Prints display (is_pair e v w) p = rw e (then-Prints (print-Prints _) p)
  cdr-Prints display (is_vector e vs) p = rw e (then-Prints (print-Prints _) p)

  pair-Prints :
      (a : ℕ) {x y : ℕ} (v : Value) {w : Value} (display : ℕ → Bool → Print) (fp : Bool)
      → ValueAt formats h y w
      → Prints (display x false) (show v)
      → Prints (display y true) (written true w)
      → Prints
          (display_object formats h display a fp (some (Object.pair x y)))
          (written fp (cons v w))
  unfolding display_object unless show
  pair-Prints a v {w} display false at p q =
      same-Prints
        (ap (λ (t : Text). b'(' ∷ t)
          (sym (append_assoc (show v) (tail_text w) (codes ")"))
            ∙ ap (λ t. t ++ codes ")") (tail_joined v w)))
        (then-Prints (print-Prints (codes "("))
          (then-Prints p (then-Prints (cdr-Prints display at q) (print-Prints (codes ")")))))
  pair-Prints a v {w} display true at p q =
      same-Prints (ap (λ t. show v ++ t) (append-nil (tail_text w)) ∙ tail_joined v w) (
        then-Prints nothing-Prints
          (then-Prints p (then-Prints (cdr-Prints display at q) nothing-Prints)))

  elements-Prints :
      {es : List ℕ} {vs : Values} (display : ℕ → Bool → Print)
      → ((a : ℕ) (v : Value)
          → ValueAt formats h a v
          → depth v < suc (depths vs)
          → Prints (display a false) (show v))
      → ValuesAt formats h es vs
      → Prints (display_elements display (count_values vs) es) (joined (show_all vs))
  unfolding display_elements show_all depths
  elements-Prints display each none_at = nothing-Prints
  elements-Prints display each (some_at {v} {vs = no_values} p none_at) = each _ v p (omega arith)
  elements-Prints display each (some_at {v} {vs = and_value w ws} p (some_at q r)) =
      then-Prints (each _ v p (omega arith)) (
        then-Prints (print-Prints (codes " "))
          (elements-Prints display (λ a u k l. each a u k (omega (arith, l))) (some_at q r)))

  display_from-Prints :
      (f : ℕ) {a : ℕ} {v : Value} (fp : Bool)
      → ValueAt formats h a v
      → depth v < f
      → Prints (display_from formats h f a fp) (written fp v)
  unfolding display_from depth display_object show elements
  display_from-Prints zero fp p l = absurd (omega (arith, l))
  display_from-Prints (suc f) {a} fp (is_atom e t) l =
      rw e (
        same-Prints (alone fp (atom _) refl)
          (display_object-Prints (display_from formats h f) fp t))
  display_from-Prints (suc f) {a} fp (is_empty e) l =
      rw e (same-Prints (alone fp empty refl) (print-Prints (codes "()")))
  display_from-Prints (suc f) {a} fp (is_pair {v} e p q) l = rw e (
      pair-Prints a v (display_from formats h f) fp q
        (display_from-Prints f false p (omega (arith, l)))
        (display_from-Prints f true q (omega (arith, l))))
  display_from-Prints (suc f) {a} fp (is_vector {vs} e p) l = rw e (
      same-Prints (alone fp (vec vs) refl) (
        then-Prints (print-Prints (codes "#(")) (
          then-Prints
            (elements-Prints (display_from formats h f)
              (λ b u k m. display_from-Prints f false k (omega (arith, l, m))) p)
            (print-Prints (codes ")")))))

  -- display of an object that stands for a datum (atoms, pairs, the empty list, vectors) prints the
  -- written form of the datum and a line end, in which the elements of a list are separated by spaces and
  -- what ends it, if it is not the empty list, stands behind a dot, given more fuel than it has pairs and
  -- vectors.
  pub builtin_display-ValueAt :
      (f a : ℕ) {v : Value} (out : Text)
      → ValueAt formats h a v
      → depth v < f
      → builtin_display formats h f (a ∷ []) out ≡ ok (unspec_obj, out ++ show v ++ codes "\n")
  unfolding builtin_display display_first print check_args_count
  builtin_display-ValueAt f a out p l = rw ((display_from-Prints f false p l).prints out) refl
