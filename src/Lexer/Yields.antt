-- ===== src/Lexer/Yields.antt =====
-- The tokens that the lexer gives, one call after the other, up to the end of the text.
use llscheme.Base.{ℕ, suc, ◌+◌, ◌<◌, ◌≡◌, true, [], ◌∷◌, ◌++◌, append-nil, arith, Text, length}
use llscheme.Base.Outcome.{ok}
use llscheme.Base.Simulation.{Related, Simulates, both_ok}
use llscheme.CodeStream.{Cursor}
use llscheme.CodeStream.View.{Source, source, text_at}
use llscheme.Token.{Token}
use llscheme.Lexer.{next_token}
use llscheme.Lexer.Chars.{is_delimiter}
use llscheme.Lexer.Lexemes.{after, after-append}
use llscheme.Lexer.Grammar.{Closed, Open, Gap}
use llscheme.Lexer.Grammar.Read.{next_token-Gap, next_token-Closed, next_token-Open, next_token-end}
use llscheme.Parser.Grammar.{Tokens, tokens, end_token}

module _ (f : ℕ) where
  pub data Yields : Source → Tokens → Type 0 where
    finished :
        {s s' : Source}
        → next_token source f s ≡ ok (end_token, s')
        → next_token source f s' ≡ ok (end_token, s')
        → Yields s []
    giving :
        {s s' : Source} {t : Token} {ts : Tokens}
        → next_token source f s ≡ ok (t, s')
        → Yields s' ts
        → Yields s (t ∷ ts)

  Yields-step :
      (s : Source) (ts : Tokens)
      → Yields s ts
      → Related Yields (next_token source f s) (tokens.next_token ts)
  Yields-step s ts (finished e e') = rw e (both_ok end_token (finished e' e'))
  Yields-step s ts (giving e y) = rw e (both_ok _ y)

  -- The lexer runs in step with the list of the tokens that it gives.
  pub Yields-Simulates : Simulates Yields (next_token source f) tokens.next_token
  Yields-Simulates = record { from = Yields-step }

  -- wherever the text stands
  abbrev pub Gives : Text → Tokens → Type 0
  Gives cs ts = (k : Cursor) → Yields (text_at cs k) ts

  -- A gap, and a lexeme that ends by itself.
  pub Gives-Closed :
      {g w : Text} {t : Token} {us : Tokens} (r : Text)
      → Gap g
      → Closed w t
      → length g + length w + 1 < f
      → Gives r us
      → Gives (g ++ (w ++ r)) (t ∷ us)
  Gives-Closed {g} {w} {t} r gap c l y k =
      giving
        (next_token-Gap (ok (t, text_at r (after (g ++ w) k))) (w ++ r) (suc (length w)) gap f k
          (omega arith) λ f' l'. rw (after-append g w k) (next_token-Closed f' r (after g k) c l'))
        (y _)

  -- A gap, and a lexeme that a delimiter has to follow.
  pub Gives-Open :
      {g w : Text} {t : Token} {us : Tokens} (d : ℕ) (r : Text)
      → Gap g
      → Open w t
      → is_delimiter d ≡ true
      → length g + length w + 1 < f
      → Gives (d ∷ r) us
      → Gives (g ++ (w ++ d ∷ r)) (t ∷ us)
  Gives-Open {g} {w} {t} d r gap o h l y k =
      giving
        (next_token-Gap (ok (t, text_at (d ∷ r) (after (g ++ w) k))) (w ++ d ∷ r) (suc (length w))
          gap f k (omega arith)
          λ f' l'. rw (after-append g w k) (next_token-Open f' d r (after g k) o h l'))
        (y _)

  -- A gap, and the end of the text.
  pub Gives-end : {g : Text} → Gap g → length g + 1 < f → Gives g []
  Gives-end {g} gap l k = rw (← append-nil g) (
      finished
        (next_token-Gap (ok (end_token, text_at [] (after g k))) [] 0 gap f k (omega arith)
          λ f' l'. next_token-end f' (after g k) l')
        (next_token-end f (after g k) (omega arith)))
