-- ===== src/Examples/Output.antt =====
-- What display prints of small data.
use llscheme.Base.{◌≡◌, refl, [], ◌∷◌, ◌++◌, codes, pos, negsuc, arith}
use llscheme.Base.Outcome.{ok}
use llscheme.Runtime.Heap.{Object, Heap, object_at, globals, unspec_obj}
use llscheme.Runtime.Output.{
  Formats, print, digits, decimal, unless, display_cdr, display_elements, display_object,
  display_from, display_first, builtin_display,
}
use llscheme.Runtime.Utils.{check_args_count}
use llscheme.Runtime.Output.Values.{
  Value, atom, cons, vec, no_values, and_value, show, depth, an_int, true_value, a_symbol, ValueAt,
  is_atom, is_pair, is_vector, none_at, some_at,
}
use llscheme.Runtime.Output.Shown.{builtin_display-ValueAt}

abbrev formats : Formats
formats = record { ntos = λ s v. []; address = λ a. codes "0x0" }

-- (#t -12 . #(x)) at the address 7
abbrev data_heap : Heap
data_heap =
    globals
    ++ (Object.number 0 (negsuc 11)
        ∷ Object.symbol 0 (codes "x")
        ∷ Object.vector (pos 1) (5 ∷ [])
        ∷ Object.pair 1 8
        ∷ Object.pair 4 6
        ∷ [])

abbrev data_value : Value
data_value =
    cons (atom (codes "#t"))
      (cons (atom (decimal (negsuc 11))) (vec (and_value (atom (codes "x")) no_values)))

data-ValueAt : ValueAt formats data_heap 7 data_value
unfolding object_at
data-ValueAt = is_pair refl (is_atom refl (true_value 0)) (
    is_pair refl (is_atom refl (an_int (negsuc 11)))
      (is_vector refl (some_at (is_atom refl (a_symbol 0 (codes "x"))) none_at)))

builtin_display-ValueAt_example :
    builtin_display formats data_heap 10 (7 ∷ []) (codes "> ")
    ≡ ok (unspec_obj, codes "> " ++ show data_value ++ codes "\n")
unfolding depth
builtin_display-ValueAt_example =
    builtin_display-ValueAt formats data_heap 10 7 (codes "> ") data-ValueAt (omega arith)

displayed :
    builtin_display formats data_heap 10 (7 ∷ []) [] ≡ ok (unspec_obj, codes "(#t -12 . #(x))\n")
unfolding builtin_display display_first display_from display_object display_cdr display_elements
    print unless decimal digits object_at check_args_count
displayed = refl
