-- ===== src/Lexer/Lexemes.antt =====
-- What the lexer reads off a text: each kind of lexeme, and what it does at the end of the text.
use llscheme.Base.{
  ℕ, zero, suc, ◌≤◌, ◌≡◌, refl, true, false, [], ◌∷◌, ◌++◌, append_assoc, append-nil, arith, ◌||◌,
  inl, inr, Bool-cases, Text, has, length, ◌==◌,
}
use llscheme.Base.Outcome.{ok, throws, diverge, invalid_identifier}
use llscheme.CodeStream.{Cursor, advance, eof_char}
use llscheme.CodeStream.View.{source, peek, text_at}
use llscheme.Token.{token, number, symbol, string}
use llscheme.Lexer.{get_identifier, get_number, to_line_end, to_quote}
use llscheme.Lexer.Chars.{is_delimiter, is_subsequent, is_initial}

-- the place behind a text
unfoldable pub after : Text → Cursor → Cursor
after [] k = k
after (c ∷ cs) k = after cs (advance c k)

pub after-append : (cs ds : Text) (k : Cursor) → after (cs ++ ds) k ≡ after ds (after cs k)
unfolding after
after-append [] ds k = refl
after-append (c ∷ cs) ds k = after-append cs ds (advance c k)

abbrev pub NoDelimiter : Text → Type 0
NoDelimiter [] = Unit {0}
NoDelimiter (c ∷ w) = (is_delimiter c ≡ false) × NoDelimiter w

pub get_number-lexeme :
    (f : ℕ) (pre : Text) (c : ℕ) (w r : Text) (d : ℕ) (k : Cursor)
    → NoDelimiter w
    → is_delimiter d ≡ true
    → length w ≤ f
    → get_number source (suc f) pre (text_at (c ∷ w ++ d ∷ r) k)
      ≡ ok (token number (pre ++ c ∷ w), text_at (d ∷ r) (after (c ∷ w) k))
unfolding get_number after
get_number-lexeme f pre c [] r d k n h l = rw h
get_number-lexeme zero pre c (e ∷ w) r d k n h l = absurd (omega arith)
get_number-lexeme (suc f) pre c (e ∷ w) r d k n h l = rw (n.0) (
    rw (get_number-lexeme f (pre ++ c ∷ []) e w r d (advance c k) n.1 h (omega arith))
      (rw append_assoc))

-- If no delimiter is left in the text, the rest of a number is read for ever: no fuel is enough.
pub get_number-diverge_at :
    (f : ℕ) (pre w : Text) (k : Cursor)
    → NoDelimiter w
    → get_number source f pre (text_at w k) ≡ diverge
unfolding get_number is_delimiter
get_number-diverge_at zero pre w k n = refl
get_number-diverge_at (suc f) pre [] k n = get_number-diverge_at f (pre ++ eof_char ∷ []) [] k tt
get_number-diverge_at (suc f) pre (c ∷ []) k n =
    get_number-diverge_at f (pre ++ c ∷ []) [] (advance c k) tt
get_number-diverge_at (suc f) pre (c ∷ d ∷ w) k n =
    rw (n.1.0) (get_number-diverge_at f (pre ++ c ∷ []) (d ∷ w) (advance c k) n.1)

abbrev pub AllSubsequent : Text → Type 0
AllSubsequent [] = Unit {0}
AllSubsequent (c ∷ w) = (is_subsequent c ≡ true) × AllSubsequent w

-- no delimiter goes on with an identifier
pub delimiter-not_subsequent : (d : ℕ) → is_delimiter d ≡ true → is_subsequent d ≡ false
unfolding is_delimiter is_subsequent is_initial
delimiter-not_subsequent d h = ground arith

pub get_identifier-lexeme :
    (f : ℕ) (pre : Text) (c : ℕ) (w r : Text) (d : ℕ) (k : Cursor)
    → AllSubsequent w
    → is_delimiter d ≡ true
    → length w ≤ f
    → get_identifier source (suc f) pre (text_at (c ∷ w ++ d ∷ r) k)
      ≡ ok (token symbol (pre ++ c ∷ w), text_at (d ∷ r) (after (c ∷ w) k))
unfolding get_identifier after
get_identifier-lexeme f pre c [] r d k n h l = rw (delimiter-not_subsequent d h) (rw h)
get_identifier-lexeme zero pre c (e ∷ w) r d k n h l = absurd (omega arith)
get_identifier-lexeme (suc f) pre c (e ∷ w) r d k n h l = rw (n.0) (
    rw (get_identifier-lexeme f (pre ++ c ∷ []) e w r d (advance c k) n.1 h (omega arith))
      (rw append_assoc))

-- An identifier that is followed by something that is neither part of it nor a delimiter, the end of the
-- text included, is an error that names what follows, given fuel above the number of characters behind its
-- first.
pub get_identifier-invalid :
    (f : ℕ) (pre : Text) (c : ℕ) (w r : Text) (k : Cursor)
    → AllSubsequent w
    → is_subsequent (peek r) ≡ false
    → is_delimiter (peek r) ≡ false
    → length w ≤ f
    → get_identifier source (suc f) pre (text_at (c ∷ w ++ r) k)
      ≡ throws (invalid_identifier (peek r))
unfolding get_identifier
get_identifier-invalid f pre c [] r k n h h' l = rw h (rw h')
get_identifier-invalid zero pre c (e ∷ w) r k n h h' l = absurd (omega arith)
get_identifier-invalid (suc f) pre c (e ∷ w) r k n h h' l =
    rw (n.0) (get_identifier-invalid f (pre ++ c ∷ []) e w r (advance c k) n.1 h h' (omega arith))

pub to_quote-lexeme :
    (f : ℕ) (pre w r : Text) (k : Cursor)
    → has b'"' w ≡ false
    → length w ≤ f
    → to_quote source (suc f) pre (text_at (w ++ b'"' ∷ r) k)
      ≡ ok (token string (pre ++ w), text_at r (after (w ++ b'"' ∷ []) k))
unfolding to_quote after
to_quote-lexeme f pre [] r k n l = rw append-nil
to_quote-lexeme zero pre (c ∷ w) r k n l = absurd (omega arith)
to_quote-lexeme (suc f) pre (c ∷ w) r k n l = elim (Bool-cases (c == b'"')) [
  | inl e ↦ absurd (ground arith)
  | inr e ↦ rw e (
      rw (to_quote-lexeme f (pre ++ c ∷ []) w r (advance c k) (ground arith) (omega arith))
        (rw append_assoc))
]

-- If no quotation mark is left in the text, the rest of a string is read for ever: no fuel is
-- enough.
pub to_quote-diverge :
    (f : ℕ) (pre w : Text) (k : Cursor)
    → has b'"' w ≡ false
    → to_quote source f pre (text_at w k) ≡ diverge
unfolding to_quote
to_quote-diverge zero pre w k n = refl
to_quote-diverge (suc f) pre [] k n = to_quote-diverge f (pre ++ eof_char ∷ []) [] k refl
to_quote-diverge (suc f) pre (c ∷ w) k n = elim (Bool-cases (c == b'"')) [
  | inl e ↦ absurd (ground arith)
  | inr e ↦ rw e (to_quote-diverge f (pre ++ c ∷ []) w (advance c k) (ground arith))
]

abbrev pub NoLineEnd : Text → Type 0
NoLineEnd [] = Unit {0}
NoLineEnd (c ∷ w) = ((c == 13 || c == 10) ≡ false) × NoLineEnd w

pub to_line_end-lexeme :
    (f : ℕ) (c : ℕ) (w : Text) (d : ℕ) (r : Text) (k : Cursor)
    → NoLineEnd w
    → (d == 13 || d == 10) ≡ true
    → length w ≤ f
    → to_line_end source (suc f) (text_at (c ∷ w ++ d ∷ r) k)
      ≡ ok (tt, text_at (d ∷ r) (after (c ∷ w) k))
unfolding to_line_end after
to_line_end-lexeme f c [] d r k n h l = rw h
to_line_end-lexeme zero c (e ∷ w) d r k n h l = absurd (omega arith)
to_line_end-lexeme (suc f) c (e ∷ w) d r k n h l =
    rw (n.0) (to_line_end-lexeme f e w d r (advance c k) n.1 h (omega arith))

-- If no line end is left in the text, the rest of a comment is skipped for ever: no fuel is
-- enough.
pub to_line_end-diverge :
    (f : ℕ) (w : Text) (k : Cursor) → NoLineEnd w → to_line_end source f (text_at w k) ≡ diverge
unfolding to_line_end
to_line_end-diverge zero w k n = refl
to_line_end-diverge (suc f) [] k n = to_line_end-diverge f [] k tt
to_line_end-diverge (suc f) (c ∷ []) k n = to_line_end-diverge f [] (advance c k) tt
to_line_end-diverge (suc f) (c ∷ d ∷ w) k n =
    rw (n.1.0) (to_line_end-diverge f (d ∷ w) (advance c k) n.1)
