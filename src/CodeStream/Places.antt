-- ===== src/CodeStream/Places.antt =====
-- Line and column: where a `CodeStreamStream` says that it is, against the text that it has read.
use llscheme.Base.{
  ℕ, zero, suc, ◌+◌, ◌≡◌, refl, ◌∙◌, Bool-cases, inl, inr, false, [], ◌∷◌, ◌++◌, arith,
  if◌then◌else◌, Text, has, length, ◌==◌,
}
use llscheme.CodeStream.{Cursor, CodeStreamStream, open_stream, advance, consume, cursor}
use llscheme.CodeStream.View.{
  Source, skip, text_at, start, Shows, waiting, buffered, ended, consume-Shows, open_stream-Shows,
}

pub consume_times : ℕ → CodeStreamStream → CodeStreamStream
consume_times zero s = s
consume_times (suc n) s = consume_times n (consume s)

skip_times : ℕ → Source → Source
skip_times zero s = s
skip_times (suc n) s = skip_times n (skip s)

consume_times-Shows :
    (n : ℕ) {s : CodeStreamStream} {t : Source}
    → Shows s t
    → Shows (consume_times n s) (skip_times n t)
unfolding consume_times skip_times
consume_times-Shows zero h = h
consume_times-Shows (suc n) h = consume_times-Shows n (consume-Shows h)

cursor-Shows : {s : CodeStreamStream} {t : Source} → Shows s t → cursor s ≡ t.place
unfolding cursor
cursor-Shows (waiting cs k c) = refl
cursor-Shows (buffered c cs k) = refl
cursor-Shows (ended cs k) = refl

pub newlines : Text → ℕ
newlines [] = 0
newlines (c ∷ cs) = if c == b'\n' then suc (newlines cs) else newlines cs

-- what follows the last newline of a text
pub last_line : Text → Text
last_line [] = []
last_line (c ∷ cs) = let rest = last_line cs in if has b'\n' (c ∷ cs) then rest else c ∷ cs

-- the place behind a text
pub place_behind : Text → Cursor → Cursor
place_behind cs k = record {
  cur_line = k.cur_line + newlines cs;
  cur_column = (if has b'\n' cs then 1 else k.cur_column) + length (last_line cs);
}

last_line-without : (cs : Text) → has b'\n' cs ≡ false → last_line cs ≡ cs
unfolding last_line
last_line-without [] h = refl
last_line-without (c ∷ cs) h = rw h refl

at_place :
    {l l' c c' : ℕ}
    → l ≡ l'
    → c ≡ c'
    → ◌≡◌ {A = Cursor}
        (record { cur_line = l; cur_column = c })
        (record { cur_line = l'; cur_column = c' })
at_place e e' = cc

place_behind-cons :
    (c : ℕ) (cs : Text) (k : Cursor) → place_behind cs (advance c k) ≡ place_behind (c ∷ cs) k
unfolding advance place_behind newlines last_line
place_behind-cons c cs k = elim (Bool-cases (c == b'\n')) [
  | inl e ↦ rw e (at_place (omega arith) (ground arith))
  | inr e ↦ rw e (elim (Bool-cases (has b'\n' cs)) [
    | inl h ↦ rw h refl
    | inr h ↦ rw (h, last_line-without cs h) (at_place refl (omega arith))
  ])
]

skip_times-place :
    (cs ds : Text) (k : Cursor)
    → (skip_times (length cs) (text_at (cs ++ ds) k)).place ≡ place_behind cs k
unfolding skip_times place_behind newlines last_line
skip_times-place [] ds k = ground arith
skip_times-place (c ∷ cs) ds k = skip_times-place cs ds (advance c k) ∙ place_behind-cons c cs k

-- The stream that has consumed a text says that it is in the line with the number of the text's newlines
-- plus one, and in the column behind what follows the last of them.
pub consume_times-cursor :
    (cs ds : Text)
    → cursor (consume_times (length cs) (open_stream (cs ++ ds)))
      ≡ record { cur_line = 1 + newlines cs; cur_column = 1 + length (last_line cs) }
consume_times-cursor cs ds =
    cursor-Shows (consume_times-Shows (length cs) (open_stream-Shows (cs ++ ds)))
    ∙ (skip_times-place cs ds start ∙ unfold place_behind in ground arith)
