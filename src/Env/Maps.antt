-- ===== src/Env/Maps.antt =====
-- `Binding`, a `std::map` from names to values. Its order of iteration is left open.
use llscheme.Base.{
  ℕ, ◌≡◌, refl, true, Option, none, some, List, [], ◌∷◌, arith, Text, same_text, ==_iff,
  if◌then◌else◌,
}

abbrev pub Binding : Type 0
Binding = List (Text × ℕ)

-- `find`, with `end()` as `none`
unfoldable pub find : Text → Binding → Option ℕ
find name [] = none
find name ((k, v) ∷ m) = if same_text k name then some v else find name m

-- `insert` leaves a name that is there as it is.
unfoldable pub insert : Text → ℕ → Binding → Binding
insert name val [] = (name, val) ∷ []
insert name val ((k, v) ∷ m) = if same_text k name then (k, v) ∷ m else (k, v) ∷ insert name val m

pub same_text_refl : (s : Text) → same_text s s ≡ true
same_text_refl [] = refl
same_text_refl (c ∷ s) = rw ((==_iff c c).1 refl) (same_text_refl s)

pub same_text→eq : (s t : Text) → same_text s t ≡ true → s ≡ t
same_text→eq [] [] h = refl
same_text→eq [] (d ∷ t) h = cc
same_text→eq (c ∷ s) [] h = cc
same_text→eq (c ∷ s) (d ∷ t) h = ground (arith, same_text→eq s t)

abbrev pub or_else : Option ℕ → ℕ → Option ℕ
or_else none v = some v
or_else (some w) v = some w

-- A lookup after an insert gives, for the inserted name, what was there, if anything was, and the
-- inserted value otherwise; for another name it gives what was there.
pub find-insert :
    (k name : Text) (val : ℕ) (m : Binding)
    → find k (insert name val m) ≡ (if same_text name k then or_else (find k m) val else find k m)
unfolding find insert
find-insert k name val [] = refl
find-insert k name val ((j, v) ∷ m) =
    ground
      (arith, find-insert k name val m, same_text→eq j name, same_text→eq j k, same_text→eq name k)
