-- ===== src/Lexer/Rounds.antt =====
-- The loop of Tokenize of cova/lex.go: its rounds, and their number.
use mathlib.Core.Path.{subst}
use go_lcc.Base.{
  ℕ, zero, suc, ◌+◌, ◌≤◌, ◌<◌, ◌≡◌, refl, sym, ap, List, [], ◌∷◌, Bool, true, false, ◌||◌, Option,
  none, some, ◌⊎◌, ◌==◌, if◌then◌else◌, length, length-drop, length-append, drop, arith,
}
use go_lcc.Outcome.{Outcome, done, failed, panic, Safe, Safe->>=, Safe-if}
use go_lcc.Lexer.Tokens.{GoText, TokenKind, Token}
use go_lcc.Lexer.Scan.{
  LexError, newline_width, line_end, block_end, ident_run, is_ident_start, tokenize_numeric_literal,
  escape, plain_token,
}
use go_lcc.Lexer.Tokenize.{
  LexState, scan_symbol, scan, round, tokenize_loop, tokenize, skip_block, advance, emit_read,
  tokenize_string_literal, string_body, in_front, tokenize_operator, tokenize_delimiter,
  is_operator, is_delimiter, starts_pair, ended, finish, finished, start,
}
use go_lcc.Lexer.Progress.{Conforms, Any, number-Progress}

abbrev Fine : Outcome LexError (List ℕ × ℕ) → Type 0
Fine = Safe Any (λ r. Unit {0})

in_front-Fine :
    (char : List ℕ) (n : ℕ) (m : Outcome LexError (List ℕ × ℕ)) → Fine m → Fine (in_front char n m)
in_front-Fine char n (done (value, taken)) h = tt
in_front-Fine char n (failed e) h = tt
in_front-Fine char n panic h = h

escaped-Fine :
    (t : GoText) (line b c : ℕ) (o : Option ℕ) (m : Outcome LexError (List ℕ × ℕ))
    → Fine m
    → Fine (elim o [
      | none ↦ failed (LexError.unsupported_escape line b c)
      | some char ↦ in_front (t.encode char) 2 m
    ])
escaped-Fine t line b c none m h = tt
escaped-Fine t line b c (some char) m h = in_front-Fine (t.encode char) 2 m h

string_body-Fine : (t : GoText) (line : ℕ) (text : List ℕ) → Fine (string_body t line text)
unfolding string_body
string_body-Fine t line [] = tt
string_body-Fine t line (b ∷ []) =
    Safe-if Any (λ r. Unit {0}) (b == b'"') (done ([], 1))
      (failed (LexError.unterminated_string line)) (λ e. tt) (λ e. tt)
string_body-Fine t line (b ∷ c ∷ rest) =
    let behind = string_body-Fine t line (c ∷ rest) in
    let escaped = string_body-Fine t line rest in
    Safe-if Any (λ r. Unit {0}) (b == b'"') (done ([], 1)) _ (λ e. tt)
      λ e.
        Safe-if Any (λ r. Unit {0}) (b == b'\\') _ _
          (λ e'. escaped-Fine t line b c (escape c) (string_body t line rest) escaped)
          λ e'.
            Safe-if Any (λ r. Unit {0}) ((b == b'\n') || (b == b'\r'))
              (failed (LexError.unterminated_string line)) _ (λ e''. tt)
              (λ e''. in_front-Fine (t.encode b) 1 (string_body t line (c ∷ rest)) behind)

string-Progress :
    (t : GoText) (line column offset : ℕ) (text : List ℕ)
    → Safe Any (λ token. 1 ≤ token.length) (tokenize_string_literal t line column offset text)
unfolding tokenize_string_literal
string-Progress t line column offset text =
    Safe->>= Any (λ r. Unit {0}) (λ token. 1 ≤ token.length) (string_body t line text) _
      (string_body-Fine t line text) (λ r h. omega arith)

newline_width-ge : (char : ℕ) (text : List ℕ) → 1 ≤ newline_width char text
unfolding newline_width
newline_width-ge char [] = omega arith
newline_width-ge char (c ∷ rest) = ground arith

width-ge : (b c : Bool) → 1 ≤ (if b then 3 else if c then 2 else 1)
width-ge true c = omega arith
width-ge false true = omega arith
width-ge false false = omega arith

tokenize_operator-ge : (text : List ℕ) → 1 ≤ tokenize_operator text
unfolding tokenize_operator
tokenize_operator-ge text = width-ge _ _

tokenize_delimiter-ge : (text : List ℕ) → 1 ≤ tokenize_delimiter text
unfolding tokenize_delimiter
tokenize_delimiter-ge text = width-ge _ _

drop-lt : (text : List ℕ) (n : ℕ) → 1 ≤ n → 1 ≤ length text → length (drop n text) < length text
drop-lt text n h k = omega (arith, length-drop n text)

-- A round leaves less of the source.
abbrev Shorter : LexState → LexState → Type 0
Shorter s s' = length s'.rest < length s.rest

emit_read-Shorter :
    (s : LexState) (m : Outcome LexError Token)
    → 1 ≤ length s.rest
    → Safe Any (λ token. 1 ≤ token.length) m
    → Safe Any (Shorter s) (emit_read s m)
emit_read-Shorter s (done token) h k = drop-lt s.rest token.length k h
emit_read-Shorter s (failed e) h k = tt
emit_read-Shorter s panic h k = k

skip_block-Shorter : (s : LexState) → 1 ≤ length s.rest → Safe Any (Shorter s) (skip_block s)
unfolding skip_block
skip_block-Shorter s h = by_end (block_end (drop 2 s.rest) s.line (s.column + 2))
  where
    by_end :
        (o : Option (ℕ × ℕ × ℕ))
        → Safe Any (Shorter s) (elim o [
          | none ↦ failed (LexError.unterminated_comment s.line s.column)
          | some (taken, line, column) ↦ done (advance s (2 + taken) line column)
        ])
    by_end none = tt
    by_end (some (taken, line, column)) = drop-lt s.rest (2 + taken) (omega arith) h

module _ (t : GoText) (c : Conforms t) where
  scan_symbol-Shorter :
      (s : LexState) (char : ℕ) → 1 ≤ length s.rest → Safe Any (Shorter s) (scan_symbol t s char)
  unfolding scan_symbol
  scan_symbol-Shorter s char some_left =
      let R = Shorter s in
      Safe-if Any R (char == b'"') _ _
        (λ e.
          emit_read-Shorter s (tokenize_string_literal t s.line s.column s.offset (drop 1 s.rest))
            some_left (string-Progress t s.line s.column s.offset (drop 1 s.rest)))
        λ e.
          Safe-if Any R (is_operator char) _ _
            (λ e'.
              drop-lt s.rest (tokenize_operator s.rest) (tokenize_operator-ge s.rest) some_left)
            λ e'.
              Safe-if Any R (is_delimiter char) _ _
                (λ e''.
                  drop-lt s.rest (tokenize_delimiter s.rest) (tokenize_delimiter-ge s.rest)
                    some_left)
                (λ e''. tt)

  scan-Shorter :
      (s : LexState) (b : ℕ) (bs : List ℕ) (char width : ℕ)
      → s.rest ≡ b ∷ bs
      → 1 ≤ width
      → (t.is_digit char ≡ true → (t.is_digit b ≡ true) ⊎ (128 ≤ b))
      → Safe Any (Shorter s) (scan t s char width)
  unfolding scan
  scan-Shorter s b bs char width e hw hd =
      let R = Shorter s in
      let some_left : 1 ≤ length s.rest = subst (λ text. 1 ≤ length text) (sym e) (omega arith) in
      let number_at = λ (digit : (t.is_digit b ≡ true) ⊎ (128 ≤ b)).
        subst
          (λ text.
            Safe Any (λ token. 1 ≤ token.length)
              (tokenize_numeric_literal t s.line s.column s.offset text))
          (sym e) (number-Progress t s.line s.column s.offset b bs c.no_number digit) in
      let less = λ (n : ℕ) (h : 1 ≤ n). drop-lt s.rest n h some_left in
      Safe-if Any R ((char == b'\n') || (char == b'\r')) _ _
        (λ e1. less (newline_width char (drop 1 s.rest)) (newline_width-ge char (drop 1 s.rest)))
        λ e1.
          Safe-if Any R (t.is_space char) _ _ (λ e2. less width hw)
            λ e2.
              Safe-if Any R (starts_pair char b'/' b'/' s.rest) _ _
                (λ e3. less (2 + line_end (drop 2 s.rest)) (omega arith))
                λ e3.
                  Safe-if Any R (starts_pair char b'/' b'*' s.rest) _ _
                    (λ e4. skip_block-Shorter s some_left)
                    λ e4.
                      Safe-if Any R (is_ident_start t char) _ _
                        (λ e5.
                          less (width + (ident_run t (length s.rest) (drop width s.rest)).0)
                            (omega (arith, hw)))
                        λ e5.
                          Safe-if Any R (t.is_digit char) _ _
                            (λ e6.
                              emit_read-Shorter s
                                (tokenize_numeric_literal t s.line s.column s.offset s.rest)
                                some_left (number_at (hd e6)))
                            (λ e6. scan_symbol-Shorter s char some_left)

  -- The loop ends, without a panic and at the end of the source, or at an error.
  abbrev Ends : Option (Outcome LexError LexState) → Type 0
  Ends o = (r : Outcome LexError LexState) × (o ≡ some r) × Safe Any (λ s. s.rest ≡ []) r

  after_scan :
      (m : Outcome LexError LexState) (s : LexState) (n : ℕ)
      (next : LexState → Option (Outcome LexError LexState))
      → length s.rest ≤ suc n
      → Safe Any (Shorter s) m
      → ((s' : LexState) → length s'.rest ≤ n → Ends (next s'))
      → Ends (elim m [ done s' ↦ next s' | failed e ↦ some (failed e) | panic ↦ some panic ])
  after_scan (done s') s n next h k ih = ih s' (omega (arith, h, k))
  after_scan (failed e) s n next h k ih = (failed e, refl, tt)
  after_scan panic s n next h k ih = absurd k

  round-Ends :
      (s : LexState) (rest : List ℕ) (n : ℕ) (next : LexState → Option (Outcome LexError LexState))
      → s.rest ≡ rest
      → length s.rest ≤ suc n
      → ((s' : LexState) → length s'.rest ≤ n → Ends (next s'))
      → Ends (round t s rest next)
  unfolding round
  round-Ends s [] n next e h ih = (done s, refl, e)
  round-Ends s (b ∷ bs) n next e h ih =
      after_scan (scan t s (t.decode (b ∷ bs)).0 (t.decode (b ∷ bs)).1) s n next h
        (scan-Shorter s b bs (t.decode (b ∷ bs)).0 (t.decode (b ∷ bs)).1 e (c.width b bs)
          (c.digit_start b bs))
        ih

  ended-Ends :
      (s : LexState) (rest : List ℕ) → s.rest ≡ rest → length s.rest ≤ 0 → Ends (ended t s rest)
  ended-Ends s [] e h = (done s, refl, e)
  ended-Ends s (b ∷ bs) e h = absurd (omega (arith, ap length e))

  tokenize_loop-Ends :
      (fuel : ℕ) (s : LexState) → length s.rest ≤ fuel → Ends (tokenize_loop t fuel s)
  unfolding tokenize_loop
  tokenize_loop-Ends zero s h = ended-Ends s s.rest refl h
  tokenize_loop-Ends (suc fuel) s h =
      round-Ends s s.rest fuel (tokenize_loop t fuel) refl h (tokenize_loop-Ends fuel)

-- The tokens of a text: at least the one for its end.
abbrev pub HasTokens : Outcome LexError (List Token) → Type 0
HasTokens = Safe Any (λ tokens. 1 ≤ length tokens)

finish-HasTokens :
    (t : GoText) (size : ℕ) (r : Outcome LexError LexState)
    → Safe Any (λ s. s.rest ≡ []) r
    → HasTokens (finish t size r)
finish-HasTokens t size (done s) h =
    omega
      (arith, length-append s.tokens (plain_token TokenKind.tok_eof s.line s.column size 0 ∷ []))
finish-HasTokens t size (failed e) h = tt
finish-HasTokens t size panic h = h

-- Where Go's functions on text conform to their documentation, the lexer ends on every source within
-- one round for each byte, without a panic: it gives tokens, one at least, or an error.
pub tokenize-HasTokens :
    (t : GoText) (source : List ℕ)
    → Conforms t
    → (r : Outcome LexError (List Token)) × (tokenize t source ≡ some r) × HasTokens r
unfolding tokenize
tokenize-HasTokens t source c =
    let (r, e, h) = tokenize_loop-Ends t c (length source) (start t source) (omega arith) in
    (
      finish t (length source) r,
      ap (finished t (length source)) e,
      finish-HasTokens t (length source) r h,
    )
