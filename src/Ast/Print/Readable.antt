-- ===== src/Ast/Print/Readable.antt =====
-- The lexer and the parser on what `finePrint` writes.
use llscheme.Base.{
  ℕ, ◌+◌, ◌≤◌, ◌<◌, ◌≡◌, refl, subst, Bool, true, false, [], ◌∷◌, ◌++◌, append_assoc, append-nil,
  arith, Text, codes, has, length, length-append,
}
use llscheme.Base.Outcome.{ok}
use llscheme.Token.{Token, TokenType, token, lparen, rparen, period}
use llscheme.Ast.{Node, Nodes, number, boolean, symbol, sexpr, none_left, arg, snoc}
use llscheme.Ast.Print.{fine_print, print_rest}
use llscheme.Lexer.Chars.{is_delimiter}
use llscheme.Lexer.Grammar.{
  Open, identifier, truth, dot, open_paren, close_paren, literal, Gap, no_gap, blank,
}
use llscheme.Lexer.Yields.{Gives, Gives-Closed, Gives-Open}
use llscheme.Parser.Grammar.{
  Tokens, Spells, a_number, a_symbol, a_string, a_boolean, list, dotted, SpellsAll, nothing,
  following,
}

-- Atoms are lexemes of their kind, no string holds a quotation mark, and no list has exactly one
-- argument, which `finePrint` cannot print.
mutual
  pub data Printable : Node → Type 0 where
    plain_number : (txt : Text) → Open txt (token TokenType.number txt) → Printable (number txt)
    plain_symbol : (txt : Text) → Open txt (token TokenType.symbol txt) → Printable (symbol txt)
    plain_string : (s : Text) → has b'"' s ≡ false → Printable (Node.string s)
    plain_boolean : (b : Bool) → Printable (boolean b)
    empty_list : Printable (sexpr none_left false)
    longer_list :
        {a b : Node} {bs : Nodes} (d : Bool)
        → Printable a
        → PrintableAll (arg b bs)
        → Printable (sexpr (arg a (arg b bs)) d)

  pub data PrintableAll : Nodes → Type 0 where
    none_more : PrintableAll none_left
    one_more : {a : Node} {as' : Nodes} → Printable a → PrintableAll as' → PrintableAll (arg a as')

-- The arguments of a list and how it ends, without the parentheses.
data SpellsTail : Bool → Nodes → Tokens → Type 0 where
  proper : {vs : Nodes} {ts : Tokens} → SpellsAll vs ts → SpellsTail false vs ts
  pointed :
      (dot_txt : Text) {vs : Nodes} {v : Node} {ts us : Tokens}
      → SpellsAll vs ts
      → Spells v us
      → SpellsTail true (snoc vs v) (ts ++ token period dot_txt ∷ us)

SpellsTail-cons :
    {d : Bool} {v : Node} {vs : Nodes} {ts us : Tokens}
    → Spells v ts
    → SpellsTail d vs us
    → SpellsTail d (arg v vs) (ts ++ us)
SpellsTail-cons s (proper ss) = proper (following s ss)
SpellsTail-cons {ts} s (pointed dot_txt {vs} {v} {ts = ts'} {us} ss t) =
    subst (SpellsTail true (arg _ (snoc vs v))) (append_assoc ts ts' (token period dot_txt ∷ us))
      (pointed dot_txt (following s ss) t)

SpellsTail-closed :
    {d : Bool} {vs : Nodes} {ts : Tokens} (o c : Text)
    → SpellsTail d vs ts
    → Spells (sexpr vs d) (token lparen o ∷ (ts ++ token rparen c ∷ []))
SpellsTail-closed o c (proper ss) = list o c ss
SpellsTail-closed o c (pointed dot_txt {ts} {us} ss s) =
    rw (append_assoc ts (token period dot_txt ∷ us) (token rparen c ∷ [])) (dotted o dot_txt c ss s)

-- A text that gives the tokens, behind any gap and in front of any delimiter.
abbrev pub Reads : Text → Tokens → Type 0
Reads s ts =
    (f : ℕ) (g r : Text) (d : ℕ) (us : Tokens)
    → Gap g
    → is_delimiter d ≡ true
    → length g + length s + 2 < f
    → Gives f (d ∷ r) us
    → Gives f (g ++ (s ++ d ∷ r)) (ts ++ us)

pub record Printed (v : Node) : Type 0 where
  pub text : Text
  pub toks : Tokens
  pub prints : fine_print v ≡ ok text
  pub spells : Spells v toks
  pub short : length toks ≤ length text
  pub reads : Reads text toks

-- the text behind the first argument of a list, which starts with a space
record PrintedRest (d : Bool) (vs : Nodes) : Type 0 where
  text : Text
  toks : Tokens
  prints : print_rest vs d ≡ ok (b' ' ∷ text)
  spells : SpellsTail d vs toks
  short : length toks ≤ length text
  reads :
      (f : ℕ) (r : Text) (us : Tokens)
      → length text + 3 < f
      → Gives f (b')' ∷ r) us
      → Gives f (b' ' ∷ (text ++ b')' ∷ r)) (toks ++ us)

atom-Reads : {w : Text} {t : Token} → Open w t → Reads w (t ∷ [])
atom-Reads o f g r d us gap h l y = Gives-Open f d r gap o h (omega arith) y

space-delimiter : is_delimiter b' ' ≡ true
unfolding is_delimiter
space-delimiter = refl

close-delimiter : is_delimiter b')' ≡ true
unfolding is_delimiter
close-delimiter = refl

space : Gap (b' ' ∷ [])
space = blank b' ' refl no_gap

length-texts : (xs ys : Text) → length (xs ++ ys) ≡ length xs + length ys
length-texts = length-append

length-tokens : (xs ys : Tokens) → length (xs ++ ys) ≡ length xs + length ys
length-tokens = length-append

ruleset lengths = (arith, length-texts, length-tokens)

abbrev open_token : Token
open_token = token lparen (codes "(")

abbrev close_token : Token
close_token = token rparen (codes ")")

-- A list between its parentheses.
list-Reads :
    (s : Text) (ts : Tokens)
    → ((f : ℕ) (r : Text) (us : Tokens)
        → length s + 3 < f
        → Gives f (b')' ∷ r) us
        → Gives f (s ++ b')' ∷ r) (ts ++ us))
    → Reads (b'(' ∷ (s ++ b')' ∷ [])) (open_token ∷ (ts ++ close_token ∷ []))
list-Reads s ts inner f g r d us gap h l y =
    rw (append_assoc s (b')' ∷ []) (d ∷ r), append_assoc ts (close_token ∷ []) us)
      (Gives-Closed f (s ++ b')' ∷ d ∷ r) gap open_paren (omega lengths) (
        inner f (d ∷ r) (close_token ∷ us) (omega lengths)
          (Gives-Closed f (d ∷ r) no_gap close_paren (omega lengths) y)))

Open-nonempty : {w : Text} {t : Token} → Open w t → 0 < length w
Open-nonempty (identifier c w i n) = omega arith
Open-nonempty _ = omega arith

list-Printed :
    (d : Bool) {a b : Node} {bs : Nodes}
    → Printed a
    → PrintedRest d (arg b bs)
    → Printed (sexpr (arg a (arg b bs)) d)
unfolding fine_print
list-Printed d A R = record {
  text = b'(' ∷ ((A.text ++ b' ' ∷ R.text) ++ b')' ∷ []);
  toks = open_token ∷ ((A.toks ++ R.toks) ++ close_token ∷ []);
  prints = rw (A.prints, R.prints);
  spells = SpellsTail-closed _ _ (SpellsTail-cons A.spells R.spells);
  short = omega (lengths, A.short, R.short);
  reads = list-Reads (A.text ++ b' ' ∷ R.text) (A.toks ++ R.toks) λ f r us l y.
      rw (append_assoc A.text (b' ' ∷ R.text) (b')' ∷ r), append_assoc A.toks R.toks us)
        (A.reads f [] (R.text ++ b')' ∷ r) b' ' (R.toks ++ us) no_gap space-delimiter
          (omega lengths) (R.reads f r us (omega lengths) y));
}

last-PrintedRest : {b : Node} → Printed b → PrintedRest false (arg b none_left)
unfolding fine_print
last-PrintedRest B = record {
  text = B.text;
  toks = B.toks ++ [];
  prints = rw (B.prints);
  spells = proper (following B.spells nothing);
  short = omega (lengths, B.short);
  reads = λ f r us l y.
      rw (append-nil B.toks)
        (B.reads f (b' ' ∷ []) r b')' us space close-delimiter (omega lengths) y);
}

dotted-PrintedRest : {b : Node} → Printed b → PrintedRest true (arg b none_left)
unfolding fine_print
dotted-PrintedRest B = record {
  text = b'.' ∷ b' ' ∷ B.text;
  toks = token period (codes ".") ∷ B.toks;
  prints = rw (B.prints);
  spells = pointed (codes ".") nothing B.spells;
  short = omega (lengths, B.short);
  reads = λ f r us l y.
      Gives-Open f b' ' (B.text ++ b')' ∷ r) space dot space-delimiter (omega lengths)
        (B.reads f (b' ' ∷ []) r b')' us space close-delimiter (omega lengths) y);
}

more-PrintedRest :
    (d : Bool) {b c : Node} {cs : Nodes}
    → Printed b
    → PrintedRest d (arg c cs)
    → PrintedRest d (arg b (arg c cs))
unfolding fine_print
more-PrintedRest d B R = record {
  text = B.text ++ b' ' ∷ R.text;
  toks = B.toks ++ R.toks;
  prints = rw (B.prints, R.prints);
  spells = SpellsTail-cons B.spells R.spells;
  short = omega (lengths, B.short, R.short);
  reads = λ f r us l y.
      rw (append_assoc B.text (b' ' ∷ R.text) (b')' ∷ r), append_assoc B.toks R.toks us)
        (B.reads f (b' ' ∷ []) (R.text ++ b')' ∷ r) b' ' (R.toks ++ us) space space-delimiter
          (omega lengths) (R.reads f r us (omega lengths) y));
}

mutual
  unfolding fine_print

  pub Printable-Printed : {v : Node} → Printable v → Printed v
  Printable-Printed (plain_number txt o) = record {
    text = txt;
    toks = _;
    prints = refl;
    spells = a_number txt;
    short = Open-nonempty o;
    reads = atom-Reads o;
  }
  Printable-Printed (plain_symbol txt o) = record {
    text = txt;
    toks = _;
    prints = refl;
    spells = a_symbol txt;
    short = Open-nonempty o;
    reads = atom-Reads o;
  }
  Printable-Printed (plain_string s n) = record {
    text = b'"' ∷ s ++ b'"' ∷ [];
    toks = _;
    prints = refl;
    spells = a_string s;
    short = omega lengths;
    reads = λ f g r d us gap h l y. Gives-Closed f (d ∷ r) gap (literal s n) (omega lengths) y;
  }
  Printable-Printed (plain_boolean true) = record {
    text = codes "#t";
    toks = _;
    prints = refl;
    spells = a_boolean (codes "#t");
    short = omega arith;
    reads = atom-Reads (truth b't' refl);
  }
  Printable-Printed (plain_boolean false) = record {
    text = codes "#f";
    toks = _;
    prints = refl;
    spells = a_boolean (codes "#f");
    short = omega arith;
    reads = atom-Reads (truth b'f' refl);
  }
  Printable-Printed empty_list = record {
    text = codes "()";
    toks = open_token ∷ close_token ∷ [];
    prints = refl;
    spells = list (codes "(") (codes ")") nothing;
    short = omega arith;
    reads = list-Reads [] [] λ f r us l y. y;
  }
  Printable-Printed (longer_list d p ps) =
      list-Printed d (Printable-Printed p) (PrintableAll-PrintedRest d ps)

  PrintableAll-PrintedRest :
      {b : Node} {bs : Nodes} (d : Bool) → PrintableAll (arg b bs) → PrintedRest d (arg b bs)
  PrintableAll-PrintedRest false (one_more p none_more) = last-PrintedRest (Printable-Printed p)
  PrintableAll-PrintedRest true (one_more p none_more) = dotted-PrintedRest (Printable-Printed p)
  PrintableAll-PrintedRest d (one_more p (one_more q qs)) =
      more-PrintedRest d (Printable-Printed p) (PrintableAll-PrintedRest d (one_more q qs))
