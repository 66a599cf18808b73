-- ===== src/CodeStream.antt =====
-- src/include/codestream.hh and src/codestream.cc: the stream of characters that the lexer reads.
-- A `char` is its bit pattern, a number below 256: what `istream::get` returns at the end, -1,
-- becomes the pattern 255 when it is stored in a `char`, so it cannot be told from that byte.
pub mod View
pub mod Places
use llscheme.Base.{
  ℕ,
  ◌+◌,
  Bool,
  true,
  false,
  List,
  [],
  ◌∷◌,
  Text,
  ◌==◌,
  if◌then◌else◌,
  Outcome.{Routine, ok},
}

pub record Cursor : Type 0 where
  pub cur_line : ℕ
  pub cur_column : ℕ

-- The abstract class: what a lexer may ask of its stream.
pub record CodeStream : Type 1 where
  pub State : Type 0
  pub getchar : State → ℕ × State
  pub cursor : State → Cursor
  pub consume : State → State

abbrev pub eof_char : ℕ
eof_char = 255

-- `std::istream`: the bytes that are left, and whether a read has met the end.
pub record InputStream : Type 0 where
  pub bytes : Text
  pub eof : Bool

-- `istream::get`: past the end it sets the flag and returns EOF.
get_from : Bool → Text → ℕ × InputStream
get_from true cs = (eof_char, record { bytes = cs; eof = true })
get_from false [] = (eof_char, record { bytes = []; eof = true })
get_from false (c ∷ cs) = (c, record { bytes = cs; eof = false })

-- `istream::get`: once past the end it sets the flag and returns EOF.
pub get : InputStream → ℕ × InputStream
unfolding get_from
get i = get_from i.eof i.bytes

pub record CodeStreamStream : Type 0 where
  pub is : InputStream
  pub m_cursor : Cursor
  pub m_ch : ℕ
  pub avail : Bool

-- The constructor; `m_ch` is not initialised there, and not read before `fillchar` sets it.
unfoldable pub open_stream : Text → CodeStreamStream
open_stream cs = record {
  is = record { bytes = cs; eof = false };
  m_cursor = record { cur_line = 1; cur_column = 1 };
  m_ch = 0;
  avail = false;
}

unfoldable pub fillchar : CodeStreamStream → CodeStreamStream
unfolding get
fillchar s =
    let (c, i) = get s.is in if s.avail then s else record s { is = i; m_ch = c; avail = true }

unfoldable pub getchar : CodeStreamStream → ℕ × CodeStreamStream
unfolding fillchar
getchar s = let s' = fillchar s in (s'.m_ch, s')

-- A newline starts the next line, and any other character moves one column on.
unfoldable pub advance : ℕ → Cursor → Cursor
advance c k =
    if c == b'\n'
    then record { cur_line = k.cur_line + 1; cur_column = 1 }
    else record k { cur_column = k.cur_column + 1 }

-- At the end the character stays, and is read again.
unfoldable pub consume : CodeStreamStream → CodeStreamStream
unfolding fillchar advance
consume s =
    let s' = fillchar s in
    if s'.is.eof then s' else record s' { m_cursor = advance s'.m_ch s'.m_cursor; avail = false }

pub cursor : CodeStreamStream → Cursor
cursor s = s.m_cursor

-- `CodeStreamStream` as a `CodeStream`.
abbrev pub code_stream_stream : CodeStream
code_stream_stream = record {
  State = CodeStreamStream;
  getchar = getchar;
  cursor = cursor;
  consume = consume;
}
