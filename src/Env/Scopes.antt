-- ===== src/Env/Scopes.antt =====
-- What a search finds, and what it leaves in the scopes.
use llscheme.Base.{
  ℕ, ◌≡◌, inl, inr, refl, Bool-cases, Option-cases, Option, none, some, List, [], ◌∷◌, arith, Text,
  same_text,
}
use mathlib.Core.Option
use llscheme.Env.{new_env, ScopesFrom, make_ref, search_scopes, back}
use llscheme.Env.Maps.{Binding, find, insert, find-insert, same_text_refl, same_text→eq}

-- What a scope gives for a name, the scopes outside it not asked.
abbrev pub Has : Text → ℕ → Binding → Type 0
Has k w m = find k m ≡ some w

-- The names that the function of a scope captures: the scope outside binds each to the value that is
-- captured, and the scope itself binds it to a value of its own.
pub data Captured : List Binding → List Binding → Type 0 where
  outermost : (b : Binding) → Captured (b ∷ []) ([] ∷ [])
  inner :
      {b c r : Binding} {bs rs : List Binding}
      → ((k : Text) (w : ℕ) → Has k w r → Has k w c)
      → ((k : Text) (w : ℕ) → Has k w r → (v : ℕ) × Has k v b)
      → Captured (c ∷ bs) rs
      → Captured (b ∷ c ∷ bs) (r ∷ rs)

pub new_env-Captured : Captured new_env.lexical new_env.refs
unfolding new_env
new_env-Captured = outermost []

pub new_scope-Captured : (bs rs : List Binding) → Captured bs rs → Captured ([] ∷ bs) ([] ∷ rs)
unfolding find
new_scope-Captured bs rs (outermost b) = inner (λ k w h. cc) (λ k w h. absurd (cc)) (outermost b)
new_scope-Captured bs rs (inner f g c) = inner (λ k w h. cc) (λ k w h. absurd (cc)) (inner f g c)

-- `insert` takes nothing away.
pub Has-insert : (k name : Text) (w val : ℕ) (m : Binding) → Has k w m → Has k w (insert name val m)
Has-insert k name w val m h = ground (arith, find-insert k name val m)

Has-insert_self :
    (name : Text) (val : ℕ) (m : Binding) → find name m ≡ none → Has name val (insert name val m)
Has-insert_self name val m h = ground (arith, find-insert name name val m, same_text_refl name)

pub add_binding-Captured :
    (name : Text) (val : ℕ) (b : Binding) (bs rs : List Binding)
    → Captured (b ∷ bs) rs
    → Captured (insert name val b ∷ bs) rs
add_binding-Captured name val b bs rs (outermost b') = outermost _
add_binding-Captured name val b bs rs (inner f g c) =
    inner f (λ k w h. let (v, h') = g k w h in (v, Has-insert k name v val b h')) c

module _ (name : Text) where
  pub search-hit :
      (b r : Binding) (bs rs : List Binding) (n v : ℕ)
      → find name b ≡ some v
      → search_scopes name (b ∷ bs) (r ∷ rs) n
        ≡ some (v, record { lexical = b ∷ bs; refs = r ∷ rs; next_value = n })
  unfolding search_scopes
  search-hit b r bs rs n v e = rw (e, search_scopes)

  pub search-miss :
      (b r : Binding) (bs rs : List Binding) (n : ℕ)
      → find name b ≡ none
      → search_scopes name (b ∷ bs) (r ∷ rs) n
        ≡ Option.map (make_ref name b r) (search_scopes name bs rs n)
  unfolding search_scopes
  search-miss b r bs rs n e = rw (e, search_scopes)

  pub search-nil : (n : ℕ) → search_scopes name [] [] n ≡ none
  unfolding search_scopes
  search-nil n = refl

  -- A search that finds `v` leaves scopes of which the innermost binds the name to `v`, and captures
  -- what it has to.
  pub record Searched (bs : List Binding) (v : ℕ) (s : ScopesFrom) : Type 0 where
    pub captured : Captured s.lexical s.refs
    pub found : Has name v (back s.lexical)
    pub grows : (k : Text) (w : ℕ) → Has k w (back bs) → Has k w (back s.lexical)

  -- The names captured after `makeref` are bound outside, to the value captured.
  make_ref-outside :
      (b c r : Binding) (val : ℕ)
      → find name b ≡ none
      → ((k : Text) (w : ℕ) → Has k w r → (v : ℕ) × Has k v b)
      → ((k : Text) (w : ℕ) → Has k w r → Has k w c)
      → Has name val c
      → (k : Text) (w : ℕ) → Has k w (insert name val r)
      → Has k w c
  make_ref-outside b c r val e g f h k w x = elim (Bool-cases (same_text name k)) [
    | inr other ↦ f k w (ground (arith, find-insert k name val r))
    | inl same ↦ elim (Option-cases (find k r)) [
      | inl fresh ↦ ground (arith, find-insert k name val r, same_text→eq name k)
      | inr (u, old) ↦ absurd (let (v, bound) = g k u old in ground (arith, same_text→eq name k))
    ]
  ]

  make_ref-inside :
      (b r : Binding) (val n : ℕ)
      → find name b ≡ none
      → ((k : Text) (w : ℕ) → Has k w r → (v : ℕ) × Has k v b)
      → (k : Text) (w : ℕ) → Has k w (insert name val r)
      → (v : ℕ) × Has k v (insert name n b)
  make_ref-inside b r val n e g k w x = elim (Bool-cases (same_text name k)) [
    | inr other ↦
        let (v, bound) = g k w (ground (arith, find-insert k name val r)) in
        (v, Has-insert k name v n b bound)
    | inl same ↦ (n, ground (arith, find-insert k name n b, same_text→eq name k))
  ]

  make_ref-Captured :
      (b r : Binding) (val : ℕ) (cs qs : List Binding) (n : ℕ)
      → find name b ≡ none
      → ((k : Text) (w : ℕ) → Has k w r → (v : ℕ) × Has k v b)
      → ((k : Text) (w : ℕ) → Has k w r → Has k w (back cs))
      → Has name val (back cs)
      → Captured cs qs
      → Captured (insert name n b ∷ cs) (insert name val r ∷ qs)
  unfolding back
  make_ref-Captured b r val cs qs n e g f h (outermost c) =
      inner (make_ref-outside b c r val e g f h) (make_ref-inside b r val n e g) (outermost c)
  make_ref-Captured b r val cs qs n e g f h (inner {b = c} f' g' more) =
      inner (make_ref-outside b c r val e g f h) (make_ref-inside b r val n e g) (inner f' g' more)

  abbrev pub Unbound : List Binding → Type 0
  Unbound [] = Unit {0}
  Unbound (b ∷ bs) = (find name b ≡ none) × Unbound bs

  -- A search finds nothing only if no scope has the name.
  pub data Search (bs : List Binding) : Option (ℕ × ScopesFrom) → Type 0 where
    missed : Unbound bs → Search bs none
    hit : (v : ℕ) (s : ScopesFrom) → Searched bs v s → Search bs (some (v, s))

  make_ref-Search :
      {b c : Binding} (r : Binding) {bs : List Binding} {o : Option (ℕ × ScopesFrom)}
      → find name b ≡ none
      → ((k : Text) (w : ℕ) → Has k w r → Has k w c)
      → ((k : Text) (w : ℕ) → Has k w r → (v : ℕ) × Has k v b)
      → Search (c ∷ bs) o
      → Search (b ∷ c ∷ bs) (Option.map (make_ref name b r) o)
  unfolding make_ref back
  make_ref-Search r e f g (missed u) = missed (e, u)
  make_ref-Search {b} {c} r e f g (hit v s h) = hit s.next_value _ (record {
    captured =
        make_ref-Captured b r v s.lexical s.refs s.next_value e g (λ k w x. h.grows k w (f k w x))
          h.found h.captured;
    found = Has-insert_self name s.next_value b e;
    grows = λ k w x. Has-insert k name w s.next_value b x;
  })

  pub search_scopes-Search :
      {bs rs : List Binding} (n : ℕ) → Captured bs rs → Search bs (search_scopes name bs rs n)
  unfolding back
  search_scopes-Search n (outermost b) = elim (Option-cases (find name b)) [
    | inl e ↦ rw (search-miss b [] [] [] n e, search-nil n) (missed (e, tt))
    | inr (w, e) ↦
        rw (search-hit b [] [] [] n w e)
          (hit w _ (record { captured = outermost b; found = e; grows = λ k u x. x }))
  ]
  search_scopes-Search n (inner {b} {c} {r} {bs} {rs} f g more) =
      elim (Option-cases (find name b)) [
        | inl e ↦
            rw (search-miss b r (c ∷ bs) rs n e)
              (make_ref-Search r e f g (search_scopes-Search n more))
        | inr (w, e) ↦
            rw (search-hit b r (c ∷ bs) rs n w e)
              (hit w _ (record { captured = inner f g more; found = e; grows = λ k u x. x }))
      ]
