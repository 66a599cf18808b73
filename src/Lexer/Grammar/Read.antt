-- ===== src/Lexer/Grammar/Read.antt =====
-- The lexer on the lexemes and gaps of the grammar.
use llscheme.Base.{
  ℕ, zero, suc, ◌+◌, ◌≤◌, ◌<◌, ◌≡◌, ◌≢◌, refl, true, false, [], ◌∷◌, ◌++◌, append_assoc, arith,
  ◌||◌, Text, codes, has, length, length-append, ◌==◌,
}
use llscheme.Base.Outcome.{Outcome, ok}
use llscheme.CodeStream.{Cursor, advance, eof_char}
use llscheme.CodeStream.View.{Source, source, text_at, peek}
use llscheme.Token.{Token, token, eof_type, number}
use llscheme.Lexer.{
  get_peculiar_identifier, get_dot, get_ellipsis, get_pound_special, skip_comment, get_string,
  get_token, next_token, blanks,
}
use llscheme.Lexer.Chars.{dec, is_delimiter, is_digit, is_initial}
use llscheme.Lexer.Lexemes.{
  NoDelimiter, NoLineEnd, after, after-append, get_number-lexeme, get_identifier-lexeme,
  to_quote-lexeme, to_line_end-lexeme,
}
use llscheme.Lexer.Grammar.{
  Closed, open_paren, close_paren, quotation, literal, Open, identifier, sign, ellipsis, dot, truth,
  digits, signed, fraction, prefixed, Gap, no_gap, blank, comment,
}

get_token-Closed :
    (f : ℕ) {w : Text} {t : Token} (r : Text) (k : Cursor)
    → Closed w t
    → length w < f
    → get_token source f (peek w) (text_at (w ++ r) k) ≡ ok (t, text_at r (after w k))
unfolding get_token get_string after
get_token-Closed f r k open_paren l = refl
get_token-Closed f r k close_paren l = refl
get_token-Closed f r k quotation l = refl
get_token-Closed zero r k (literal w n) l = absurd (omega arith)
get_token-Closed (suc f) r k (literal w n) l =
    rw (append_assoc w (b'"' ∷ []) r)
      (to_quote-lexeme f [] w r _ n (omega (arith, length-append w (b'"' ∷ []))))

record Plain (c : ℕ) : Type 0 where
  not_open : (c == b'(') ≡ false
  not_close : (c == b')') ≡ false
  not_quote : (c == 39) ≡ false
  not_sign : has c (codes "+-") ≡ false
  not_dot : (c == b'.') ≡ false
  not_string : (c == b'"') ≡ false
  not_pound : (c == b'#') ≡ false

digit-Plain : (c : ℕ) → is_digit dec c ≡ true → Plain c
unfolding is_digit
digit-Plain c h = ground arith

initial-Plain : (c : ℕ) → is_initial c ≡ true → Plain c
unfolding is_initial
initial-Plain c h = ground arith

initial-not_digit : (c : ℕ) → is_initial c ≡ true → is_digit dec c ≡ false
unfolding is_initial is_digit
initial-not_digit c h = ground arith

-- what `nextToken` looks for before its switch on the start of a token
record Starts (c : ℕ) : Type 0 where
  not_end : (c == eof_char) ≡ false
  not_blank : has c blanks ≡ false
  not_comment : (c == b';') ≡ false

digit-Starts : (c : ℕ) → is_digit dec c ≡ true → Starts c
unfolding is_digit
digit-Starts c h = ground arith

initial-Starts : (c : ℕ) → is_initial c ≡ true → Starts c
unfolding is_initial
initial-Starts c h = ground arith

sign-Starts : (c : ℕ) → has c (codes "+-") ≡ true → Starts c
sign-Starts c h = ground arith

sign-plain :
    (c : ℕ)
    → has c (codes "+-") ≡ true
    → ((c == b'(') ≡ false) × ((c == b')') ≡ false) × ((c == 39) ≡ false)
sign-plain c h = ground arith

dot-not_delimiter : is_delimiter b'.' ≡ false
unfolding is_delimiter
dot-not_delimiter = refl

prefix-not_truth : (c : ℕ) → has c (codes "bodxie") ≡ true → has c (codes "tf") ≡ false
prefix-not_truth c h = ground arith

get_peculiar_identifier-signed :
    (f c : ℕ) (w r : Text) (d : ℕ) (k : Cursor)
    → w ≢ []
    → NoDelimiter w
    → is_delimiter d ≡ true
    → length w ≤ f
    → get_peculiar_identifier source f (text_at (c ∷ w ++ d ∷ r) k)
      ≡ ok (token number (c ∷ w), text_at (d ∷ r) (after (c ∷ w) k))
unfolding get_peculiar_identifier after
get_peculiar_identifier-signed f c [] r d k ne n h l = absurd (ne refl)
get_peculiar_identifier-signed zero c (e ∷ w) r d k ne n h l = absurd (omega arith)
get_peculiar_identifier-signed (suc f) c (e ∷ w) r d k ne n h l =
    rw (n.0) (get_number-lexeme f (c ∷ []) e w r d (advance c k) n.1 h (omega arith))

get_token-Open :
    (f : ℕ) {w : Text} {t : Token} (d : ℕ) (r : Text) (k : Cursor)
    → Open w t
    → is_delimiter d ≡ true
    → length w < f
    → get_token source f (peek w) (text_at (w ++ d ∷ r) k) ≡ ok (t, text_at (d ∷ r) (after w k))
unfolding get_token
get_token-Open zero d r k o h l = absurd (omega arith)
get_token-Open (suc f) d r k (identifier c w i n) h l =
    let p = initial-Plain c i in
    rw
      (
        p.not_open,
        p.not_close,
        p.not_quote,
        p.not_sign,
        p.not_dot,
        p.not_string,
        p.not_pound,
        initial-not_digit c i,
        i,
      )
      (get_identifier-lexeme f [] c w r d k n h (omega arith))
get_token-Open (suc f) d r k (sign c i) h l =
    let p = sign-plain c i in rw (p.0, p.1, p.2, i) (unfold get_peculiar_identifier after in rw h)
get_token-Open (suc f) d r k ellipsis h l =
    unfold get_dot get_ellipsis after in rw (dot-not_delimiter, h)
get_token-Open (suc f) d r k dot h l = unfold get_dot after in rw h
get_token-Open (suc f) d r k (truth c i) h l = unfold get_pound_special after in rw (i, h)
get_token-Open (suc f) d r k (digits c w i n) h l =
    let p = digit-Plain c i in
    rw (p.not_open, p.not_close, p.not_quote, p.not_sign, p.not_dot, p.not_string, p.not_pound, i)
      (get_number-lexeme f [] c w r d k n h (omega arith))
get_token-Open (suc f) d r k (signed c w i ne n) h l =
    let p = sign-plain c i in
    rw (p.0, p.1, p.2, i) (get_peculiar_identifier-signed (suc f) c w r d k ne n h (omega arith))
get_token-Open (suc f) d r k (fraction c w i n) h l =
    unfold get_dot after in
    rw (n.0, i) (get_number-lexeme f (codes ".") c w r d _ n.1 h (omega arith))
get_token-Open (suc f) d r k (prefixed c w i n) h l =
    unfold get_pound_special after in
    rw (prefix-not_truth c i, i) (get_number-lexeme f (codes "#") c w r d _ n h (omega arith))

skip_comment-lexeme :
    (f : ℕ) (w : Text) (d : ℕ) (r : Text) (k : Cursor)
    → NoLineEnd w
    → (d == 13 || d == 10) ≡ true
    → length w < f
    → skip_comment source f (text_at (b';' ∷ w ++ d ∷ r) k)
      ≡ ok (tt, text_at r (after (b';' ∷ w ++ d ∷ []) k))
unfolding skip_comment after
skip_comment-lexeme zero w d r k n h l = absurd (omega arith)
skip_comment-lexeme (suc f) w d r k n h l =
    rw (to_line_end-lexeme f b';' w d r k n h (omega arith)) (rw after-append)

blank-not_end : (c : ℕ) → has c blanks ≡ true → (c == eof_char) ≡ false
blank-not_end c h = ground arith

after-split :
    (w : Text) (d : ℕ) (g : Text) (k : Cursor)
    → after g (after (w ++ d ∷ []) k) ≡ after (w ++ d ∷ g) k
unfolding after
after-split w d g k = rw (after-append w (d ∷ []) k, after-append w (d ∷ g) k)

-- What the lexer makes of a text with every fuel above a bound, it makes of the text with white space and
-- ended comments in front, given fuel above the bound plus the length of these.
pub next_token-Gap :
    (x : Outcome (Token × Source)) (r : Text) (b : ℕ) {g : Text}
    → Gap g
    → (f : ℕ) (k : Cursor) → length g + b < f
    → ((f' : ℕ) → b < f' → next_token source f' (text_at r (after g k)) ≡ x)
    → next_token source f (text_at (g ++ r) k) ≡ x
unfolding next_token after
next_token-Gap x r b g zero k l h = absurd (omega arith)
next_token-Gap x r b no_gap (suc f) k l h = h (suc f) (omega arith)
next_token-Gap x r b (blank c {g} i gap) (suc f) k l h =
    rw (blank-not_end c i, i) (next_token-Gap x r b {g = g} gap f (advance c k) (omega arith) h)
next_token-Gap x r b (comment w d {g} n i gap) (suc f) k l h = rw (append_assoc w (d ∷ g) r) (
    rw (skip_comment-lexeme f w d (g ++ r) k n i (omega (arith, length-append w (d ∷ g)))) (
      next_token-Gap x r b {g = g} gap f _ (omega (arith, length-append w (d ∷ g)))
        λ f' l'. rw (after-split w d g (advance b';' k)) (h f' l')))

-- A parenthesis, a quotation mark or a string literal is read as its token, whatever follows, given fuel
-- above the length of the lexeme plus one.
pub next_token-Closed :
    (f : ℕ) {w : Text} {t : Token} (r : Text) (k : Cursor)
    → Closed w t
    → suc (length w) < f
    → next_token source f (text_at (w ++ r) k) ≡ ok (t, text_at r (after w k))
unfolding next_token
next_token-Closed zero r k c l = absurd (omega arith)
next_token-Closed (suc f) r k open_paren l = get_token-Closed f r k open_paren (omega arith)
next_token-Closed (suc f) r k close_paren l = get_token-Closed f r k close_paren (omega arith)
next_token-Closed (suc f) r k quotation l = get_token-Closed f r k quotation (omega arith)
next_token-Closed (suc f) r k (literal w n) l = get_token-Closed f r k (literal w n) (omega arith)

Open-Starts : {w : Text} {t : Token} → Open w t → Starts (peek w)
Open-Starts (identifier c w i n) = initial-Starts c i
Open-Starts (sign c i) = sign-Starts c i
Open-Starts ellipsis = record { not_end = refl; not_blank = refl; not_comment = refl }
Open-Starts dot = record { not_end = refl; not_blank = refl; not_comment = refl }
Open-Starts (truth c i) = record { not_end = refl; not_blank = refl; not_comment = refl }
Open-Starts (digits c w i n) = digit-Starts c i
Open-Starts (signed c w i ne n) = sign-Starts c i
Open-Starts (fraction c w i n) = record { not_end = refl; not_blank = refl; not_comment = refl }
Open-Starts (prefixed c w i n) = record { not_end = refl; not_blank = refl; not_comment = refl }

peek-append : {w : Text} {t : Token} (r : Text) → Open w t → peek (w ++ r) ≡ peek w
peek-append r (identifier c w i n) = refl
peek-append r _ = refl

-- A lexeme that a delimiter has to follow (identifier, number, dot, boolean), with a delimiter behind it,
-- is read as its token, and the delimiter is left, given fuel above the length of the lexeme plus one.
pub next_token-Open :
    (f : ℕ) {w : Text} {t : Token} (d : ℕ) (r : Text) (k : Cursor)
    → Open w t
    → is_delimiter d ≡ true
    → suc (length w) < f
    → next_token source f (text_at (w ++ d ∷ r) k) ≡ ok (t, text_at (d ∷ r) (after w k))
unfolding next_token
next_token-Open zero d r k o h l = absurd (omega arith)
next_token-Open (suc f) d r k o h l =
    let s = Open-Starts o in
    rw (peek-append (d ∷ r) o)
      (rw (s.not_end, s.not_blank, s.not_comment) (get_token-Open f d r k o h (omega arith)))

pub next_token-end :
    (f : ℕ) (k : Cursor)
    → 0 < f
    → next_token source f (text_at [] k) ≡ ok (token eof_type (codes "<EOF>"), text_at [] k)
unfolding next_token
next_token-end zero k l = absurd (omega arith)
next_token-end (suc f) k l = refl
