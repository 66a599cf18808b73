-- ===== src/Main/RoundTrip.antt =====
-- Reading a printed program: stream, lexer and parser together.
use llscheme.Base.{
  ℕ, ◌+◌, ◌≤◌, ◌<◌, ◌≡◌, refl, Bool, true, false, [], ◌∷◌, ◌++◌, append-nil, arith, Text, codes,
  length, length-append,
}
use llscheme.Base.Outcome.{Outcome, ok, and_then}
use llscheme.Base.Simulation.{Related-ok}
use llscheme.CodeStream.{code_stream_stream, open_stream}
use llscheme.CodeStream.View.{source, source_of, start, Shows, open_stream-Shows}
use llscheme.Lexer.Chars.{is_delimiter}
use llscheme.Lexer.Streams.{lexers_in_step}
use llscheme.Lexer.Grammar.{Gap, no_gap, blank}
use llscheme.Lexer.Yields.{Yields, Yields-Simulates, Gives, Gives-end}
use llscheme.Ast.{Nodes, symbol, sexpr, none_left, arg}
use llscheme.Ast.Print.{fine_print}
use llscheme.Ast.Print.Readable.{PrintableAll, none_more, one_more, Printable-Printed}
use llscheme.Parser.Grammar.{Tokens, tokens, ready, SpellsAll, nothing, following}
use llscheme.Parser.Grammar.Complete.{append_nodes}
use llscheme.Parser.Sources.{same}
use llscheme.Main.{lexer, begin, read_program}
use llscheme.Main.Program.{size, traced, read_all-Simulates, read_all-SpellsAll}

-- The nodes as `finePrint` writes them, each on lines of its own.
unfoldable pub listing : Nodes → Outcome Text
listing none_left = ok []
listing (arg v vs) = and_then (fine_print v) λ s. and_then (listing vs) λ r. ok (s ++ b'\n' ∷ r)

length-texts : (xs ys : Text) → length (xs ++ ys) ≡ length xs + length ys
length-texts = length-append

length-tokens : (xs ys : Tokens) → length (xs ++ ys) ≡ length xs + length ys
length-tokens = length-append

ruleset lengths = (arith, length-texts, length-tokens)

newline-delimiter : is_delimiter b'\n' ≡ true
unfolding is_delimiter
newline-delimiter = refl

newline : Gap (b'\n' ∷ [])
newline = blank b'\n' refl no_gap

record Listed (vs : Nodes) : Type 0 where
  text : Text
  toks : Tokens
  prints : listing vs ≡ ok text
  spells : SpellsAll vs toks
  short : length toks ≤ length text
  small : size vs ≤ length text
  gives : (f : ℕ) (g : Text) → Gap g → length g + length text + 2 < f → Gives f (g ++ text) toks

PrintableAll-Listed : {vs : Nodes} → PrintableAll vs → Listed vs
unfolding listing size
PrintableAll-Listed none_more = record {
  text = [];
  toks = [];
  prints = refl;
  spells = nothing;
  short = omega arith;
  small = omega arith;
  gives = λ f g gap l. rw (append-nil g) (Gives-end f gap (omega lengths));
}
PrintableAll-Listed (one_more p ps) =
    let A = Printable-Printed p in
    let R = PrintableAll-Listed ps in
    record {
      text = A.text ++ b'\n' ∷ R.text;
      toks = A.toks ++ R.toks;
      prints = rw (A.prints, R.prints);
      spells = following A.spells R.spells;
      short = omega (lengths, A.short, R.short);
      small = omega (lengths, R.small);
      gives = λ f g gap l.
          A.reads f g R.text b'\n' R.toks gap newline-delimiter (omega lengths)
            (R.gives f (b'\n' ∷ []) newline (omega lengths));
    }

ok-injective : {x : Outcome Text} {s t : Text} → x ≡ ok s → x ≡ ok t → s ≡ t
ok-injective e e' = cc

read_program-Listed :
    (f : ℕ) (p : Bool) {vs : Nodes} (r : Listed vs)
    → length r.text + 2 < f
    → read_program f p r.text ≡ ok (sexpr (arg (symbol (codes "begin")) (traced p vs)) false)
unfolding read_program append_nodes begin
read_program-Listed f p {vs} r l =
    let on_tokens =
      read_all-SpellsAll p r.spells f f begin (omega (arith, r.small)) (omega (arith, r.short)) in
    let from_source =
      (read_all-Simulates (lexer source f) tokens (Yields f) (Yields-Simulates f) f p f begin).from
        (ready (source_of r.text)) (ready r.toks)
        (same [] (r.gives f [] no_gap (omega arith) start)) in
    let (s, e) = Related-ok from_source on_tokens in
    let from_stream =
      (read_all-Simulates (lexer code_stream_stream f) (lexer source f) Shows (lexers_in_step f) f p
          f begin).from
        (ready (open_stream r.text)) (ready (source_of r.text))
        (same [] (open_stream-Shows r.text)) in
    let (s', e') = Related-ok from_stream e in rw e'

-- Every sequence of printable expressions has a listing.
pub listing_total : {vs : Nodes} → PrintableAll vs → (s : Text) × (listing vs ≡ ok s)
listing_total ps = let r = PrintableAll-Listed ps in (r.text, r.prints)

-- Expressions that finePrint can print, printed one to a line, are read back from the character stream
-- through lexer and parser as the program that consists of them, in order and each in a call of display
-- under -p, given more fuel than the length of the text plus two.
pub read_program-listing :
    {vs : Nodes} {s : Text}
    → PrintableAll vs
    → listing vs ≡ ok s
    → (f : ℕ) (p : Bool) → length s + 2 < f
    → read_program f p s ≡ ok (sexpr (arg (symbol (codes "begin")) (traced p vs)) false)
read_program-listing {s} ps e f p l =
    let r = PrintableAll-Listed ps in
    let same_text : s ≡ r.text = ok-injective e r.prints in
    rw same_text (read_program-Listed f p r (rw same_text at l))
