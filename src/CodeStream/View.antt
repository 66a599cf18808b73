-- ===== src/CodeStream/View.antt =====
-- What a `CodeStreamStream` stands for: a text that is still to be read, and a place in it. The
-- text itself is a code stream too, and the two run in step.
use llscheme.Base.{ℕ, ◌≡◌, refl, Bool, true, false, [], ◌∷◌, Text}
use llscheme.CodeStream.{
  Cursor, CodeStream, CodeStreamStream, eof_char, open_stream, getchar, advance, consume,
}

abbrev pub peek : Text → ℕ
peek [] = eof_char
peek (c ∷ cs) = c

-- A text with the place that it has been read to.
pub record Source : Type 0 where
  pub text : Text
  pub place : Cursor

abbrev pub text_at : Text → Cursor → Source
text_at cs k = record { text = cs; place = k }

abbrev pub skip_at : Text → Cursor → Source
skip_at [] k = text_at [] k
skip_at (c ∷ cs) k = text_at cs (advance c k)

abbrev pub skip : Source → Source
skip s = skip_at s.text s.place

abbrev pub source : CodeStream
source = record {
  State = Source;
  getchar = λ s. (peek s.text, s);
  cursor = λ s. s.place;
  consume = skip;
}

abbrev pub start : Cursor
start = record { cur_line = 1; cur_column = 1 }

abbrev pub source_of : Text → Source
source_of cs = text_at cs start

abbrev raw : Bool → Text → Cursor → ℕ → Bool → CodeStreamStream
raw e cs k c a = record { is = record { bytes = cs; eof = e }; m_cursor = k; m_ch = c; avail = a }

-- The buffered character belongs to the text, unless the end has been met.
pub data Shows : CodeStreamStream → Source → Type 0 where
  waiting : (cs : Text) (k : Cursor) (c : ℕ) → Shows (raw false cs k c false) (text_at cs k)
  buffered : (c : ℕ) (cs : Text) (k : Cursor) → Shows (raw false cs k c true) (text_at (c ∷ cs) k)
  ended : (cs : Text) (k : Cursor) → Shows (raw true cs k eof_char true) (text_at [] k)

pub open_stream-Shows : (cs : Text) → Shows (open_stream cs) (source_of cs)
unfolding open_stream
open_stream-Shows cs = waiting cs start 0

-- Reading a character gives the next one of the text, 255 at its end, and moves nothing.
pub getchar-Shows :
    {s : CodeStreamStream} {t : Source}
    → Shows s t
    → ((getchar s).0 ≡ peek t.text) × Shows (getchar s).1 t
unfolding getchar
getchar-Shows (waiting [] k c) = (refl, ended [] k)
getchar-Shows (waiting (d ∷ cs) k c) = (refl, buffered d cs k)
getchar-Shows (buffered c cs k) = (refl, buffered c cs k)
getchar-Shows (ended cs k) = (refl, ended cs k)

pub consume-Shows : {s : CodeStreamStream} {t : Source} → Shows s t → Shows (consume s) (skip t)
unfolding consume
consume-Shows (waiting [] k c) = ended [] k
consume-Shows (waiting (d ∷ cs) k c) = waiting cs _ d
consume-Shows (buffered c cs k) = waiting cs _ c
consume-Shows (ended cs k) = ended cs k
