-- ===== src/Lexer/Keeps.antt =====
-- The loop of Tokenize of cova/lex.go keeps what each of its steps keeps.
use mathlib.Core.Path.{subst}
use go_lcc.Base.{ℕ, zero, suc, ◌≡◌, refl, List, [], ◌∷◌, ◌++◌, Option, none, some, length}
use go_lcc.Outcome.{Outcome, done, failed, panic, Where}
use go_lcc.Lexer.Tokens.{GoText, TokenKind, Token}
use go_lcc.Lexer.Scan.{LexError, plain_token}
use go_lcc.Lexer.Tokenize.{LexState, scan, round, tokenize_loop, tokenize, ended, finished, start}

-- The same of a loop that may have run out of fuel.
abbrev Wherever : {A : Type 0} → (A → Type 0) → Option (Outcome LexError A) → Type 0
Wherever P none = Unit
Wherever P (some r) = Where P r

-- What is kept holds in every state of the loop, in front of a step and at the end.
module _ (t : GoText) (Kept : LexState → Type 0)
    (scan-Kept : (s : LexState) (b : ℕ) (bs : List ℕ)
      → s.rest ≡ b ∷ bs
      → Kept s
      → Where Kept (scan t s (t.decode (b ∷ bs)).0 (t.decode (b ∷ bs)).1)) where
  abbrev AtEnd : LexState → Type 0
  AtEnd s = Kept s × (s.rest ≡ [])

  ended-Kept :
      (s : LexState) (rest : List ℕ) → s.rest ≡ rest → Kept s → Wherever AtEnd (ended t s rest)
  ended-Kept s [] e h = (h, e)
  ended-Kept s (b ∷ bs) e h = tt

  after-Kept :
      (m : Outcome LexError LexState) (next : LexState → Option (Outcome LexError LexState))
      → Where Kept m
      → ((s' : LexState) → Kept s' → Wherever AtEnd (next s'))
      → Wherever AtEnd
          (elim m [ done s' ↦ next s' | failed e ↦ some (failed e) | panic ↦ some panic ])
  after-Kept (done s') next h k = k s' h
  after-Kept (failed e) next h k = tt
  after-Kept panic next h k = tt

  round-Kept :
      (s : LexState) (rest : List ℕ) (next : LexState → Option (Outcome LexError LexState))
      → s.rest ≡ rest
      → Kept s
      → ((s' : LexState) → Kept s' → Wherever AtEnd (next s'))
      → Wherever AtEnd (round t s rest next)
  unfolding round
  round-Kept s [] next e h k = (h, e)
  round-Kept s (b ∷ bs) next e h k =
      after-Kept (scan t s (t.decode (b ∷ bs)).0 (t.decode (b ∷ bs)).1) next (scan-Kept s b bs e h)
        k

  tokenize_loop-Kept : (fuel : ℕ) (s : LexState) → Kept s → Wherever AtEnd (tokenize_loop t fuel s)
  unfolding tokenize_loop
  tokenize_loop-Kept zero s h = ended-Kept s s.rest refl h
  tokenize_loop-Kept (suc fuel) s h =
      round-Kept s s.rest (tokenize_loop t fuel) refl h (tokenize_loop-Kept fuel)

  module _ (size : ℕ) (Result : List Token → Type 0)
      (finish-Result : (s : LexState)
        → Kept s
        → s.rest ≡ []
        → Result (s.tokens ++ (plain_token TokenKind.tok_eof s.line s.column size 0 ∷ []))) where
    finished-Result :
        (o : Option (Outcome LexError LexState))
        → Wherever AtEnd o
        → Wherever Result (finished t size o)
    finished-Result none h = tt
    finished-Result (some (done s)) (h, e) = finish-Result s h e
    finished-Result (some (failed e)) h = tt
    finished-Result (some panic) h = tt

  -- What holds at the start holds at the end, where the lexer succeeds.
  pub tokenize-Kept :
      (source : List ℕ) (tokens : List Token) (Result : List Token → Type 0)
      → Kept (start t source)
      → ((s : LexState)
          → Kept s
          → s.rest ≡ []
          → Result
              (s.tokens ++ (plain_token TokenKind.tok_eof s.line s.column (length source) 0 ∷ [])))
      → tokenize t source ≡ some (done tokens)
      → Result tokens
  unfolding tokenize
  tokenize-Kept source tokens Result begin end e = subst (Wherever Result) e (
      finished-Result (length source) Result end (tokenize_loop t (length source) (start t source))
        (tokenize_loop-Kept (length source) (start t source) begin))
