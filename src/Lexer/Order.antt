-- ===== src/Lexer/Order.antt =====
-- Tokenize of cova/lex.go: where the tokens stand in the source.
use mathlib.Core.Path.{subst}
use go_lcc.Base.{
  ℕ, suc, ◌+◌, ◌≤◌, ◌≡◌, refl, ap, List, [], ◌∷◌, ◌++◌, ◌||◌, Option, none, some, ◌==◌,
  if◌then◌else◌, length, take, drop, arith,
}
use go_lcc.Outcome.{Outcome, done, failed, panic, Where, Where-if, Where-any, Where-both}
use go_lcc.Lexer.Tokens.{GoText, TokenKind, Token}
use go_lcc.Lexer.Scan.{
  LexError, or_fail, digit_run, fraction, exponent, number_token, finish_number, number_behind,
  tokenize_numeric_literal, number_suffix, trim_suffix, has_float_mark, is_ident_start, block_end,
}
use go_lcc.Lexer.Progress.{Conforms}
use go_lcc.Lexer.Keeps.{tokenize-Kept}
use go_lcc.Lexer.Fits.{Fits, scan-Fits}
use go_lcc.Lexer.Tokenize.{
  LexState, scan_symbol, scan, tokenize, skip_block, advance, emit_read, tokenize_string_literal,
  string_body, is_operator, is_delimiter, starts_pair, ident_token,
}

-- Each token begins at or behind the end of the one in front of it, the first at `low`, and the last one
-- ends in front of `high`.
abbrev pub Ordered : ℕ → List Token → ℕ → Type 0
Ordered low [] high = low ≤ high
Ordered low (token ∷ tokens) high =
    (low ≤ token.offset) × Ordered (token.offset + token.length) tokens high

Ordered-weaken :
    (low : ℕ) (tokens : List Token) (high high' : ℕ)
    → high ≤ high'
    → Ordered low tokens high
    → Ordered low tokens high'
Ordered-weaken low [] high high' le h = omega (arith, le, h)
Ordered-weaken low (token ∷ tokens) high high' le (h, hs) =
    (h, Ordered-weaken (token.offset + token.length) tokens high high' le hs)

Ordered-snoc :
    (low : ℕ) (tokens : List Token) (token : Token) (high : ℕ)
    → Ordered low tokens high
    → token.offset ≡ high
    → Ordered low (tokens ++ (token ∷ [])) (high + token.length)
Ordered-snoc low [] token high h e = (omega (arith, e, h), omega (arith, e))
Ordered-snoc low (t ∷ tokens) token high (h, hs) e =
    (h, Ordered-snoc (t.offset + t.length) tokens token high hs e)

abbrev StandsAt : ℕ → Token → Type 0
StandsAt at token = token.offset ≡ at

module _ (t : GoText) (line column at : ℕ) where
  number_token-StandsAt :
      (kind : TokenKind) (n : ℕ) (value : List ℕ)
      → Where (StandsAt at) (number_token t line column at kind n value)
  unfolding number_token
  number_token-StandsAt TokenKind.tok_integer n value =
      Where-any (StandsAt at)
        (or_fail (LexError.invalid_integer_literal line column) (t.parse_int value)) _ (λ a. refl)
  number_token-StandsAt kind n value =
      let text = trim_suffix b'D' (trim_suffix b'd' (trim_suffix b'F' (trim_suffix b'f' value))) in
      Where-any (StandsAt at)
        (or_fail (LexError.invalid_float_literal line column) (t.parse_float text)) _ (λ a. refl)

  finish_number-StandsAt :
      (text : List ℕ) (digits : ℕ)
      → Where (StandsAt at) (finish_number t line column at text digits)
  unfolding finish_number
  finish_number-StandsAt text digits =
      let marked =
        if has_float_mark (take digits text)
        then TokenKind.tok_float32
        else TokenKind.tok_integer in
      let suffixed = number_suffix marked digits (drop digits text) in
      number_token-StandsAt suffixed.0 suffixed.1 (take suffixed.1 text)

  number-StandsAt :
      (text : List ℕ) → Where (StandsAt at) (tokenize_numeric_literal t line column at text)
  unfolding tokenize_numeric_literal number_behind
  number-StandsAt text =
      let whole = digit_run t text in
      Where-any (StandsAt at)
        (or_fail (LexError.invalid_numeric_literal line column) (fraction t (drop whole text))) _
        λ n.
          Where-any (StandsAt at)
            (or_fail (LexError.invalid_numeric_literal line column)
              (exponent t (drop (whole + n) text)))
            _ (λ m. finish_number-StandsAt text (whole + n + m))

  string-StandsAt :
      (text : List ℕ) → Where (StandsAt at) (tokenize_string_literal t line column at text)
  unfolding tokenize_string_literal
  string-StandsAt text = Where-any (StandsAt at) (string_body t line text) _ (λ r. refl)

-- The tokens of a state stand in order in front of its position.
abbrev pub InOrder : LexState → Type 0
InOrder s = Ordered 0 s.tokens s.offset

emit_read-InOrder :
    (s : LexState) (m : Outcome LexError Token)
    → InOrder s
    → Where (StandsAt s.offset) m
    → Where InOrder (emit_read s m)
emit_read-InOrder s (done token) h e = Ordered-snoc 0 s.tokens token s.offset h e
emit_read-InOrder s (failed e) h k = tt
emit_read-InOrder s panic h k = tt

skip_block-InOrder : (s : LexState) → InOrder s → Where InOrder (skip_block s)
unfolding skip_block
skip_block-InOrder s h = by_end (block_end (drop 2 s.rest) s.line (s.column + 2))
  where
    by_end :
        (o : Option (ℕ × ℕ × ℕ))
        → Where InOrder (elim o [
          | none ↦ failed (LexError.unterminated_comment s.line s.column)
          | some (taken, line, column) ↦ done (advance s (2 + taken) line column)
        ])
    by_end none = tt
    by_end (some (taken, line, column)) =
        Ordered-weaken 0 s.tokens s.offset (s.offset + (2 + taken)) (omega arith) h

module _ (t : GoText) where
  scan_symbol-InOrder : (s : LexState) (char : ℕ) → InOrder s → Where InOrder (scan_symbol t s char)
  unfolding scan_symbol
  scan_symbol-InOrder s char h =
      Where-if InOrder (char == b'"') _ _
        (emit_read-InOrder s (tokenize_string_literal t s.line s.column s.offset (drop 1 s.rest)) h
          (string-StandsAt t s.line s.column s.offset (drop 1 s.rest)))
        (Where-if InOrder (is_operator char) _ _ (Ordered-snoc 0 s.tokens _ s.offset h refl)
          (Where-if InOrder (is_delimiter char) _ _ (Ordered-snoc 0 s.tokens _ s.offset h refl) tt))

  scan-InOrder : (s : LexState) (char width : ℕ) → InOrder s → Where InOrder (scan t s char width)
  unfolding scan ident_token
  scan-InOrder s char width h =
      Where-if InOrder ((char == b'\n') || (char == b'\r')) _ _
        (Ordered-snoc 0 s.tokens _ s.offset h refl)
        (Where-if InOrder (t.is_space char) _ _
          (Ordered-weaken 0 s.tokens s.offset (s.offset + width) (omega arith) h)
          (Where-if InOrder (starts_pair char b'/' b'/' s.rest) _ _
            (Ordered-weaken 0 s.tokens s.offset _ (omega arith) h)
            (Where-if InOrder (starts_pair char b'/' b'*' s.rest) _ _ (skip_block-InOrder s h) (
              Where-if InOrder (is_ident_start t char) _ _
                (Ordered-snoc 0 s.tokens _ s.offset h refl)
                (Where-if InOrder (t.is_digit char) _ _
                  (emit_read-InOrder s (tokenize_numeric_literal t s.line s.column s.offset s.rest)
                    h (number-StandsAt t s.line s.column s.offset s.rest))
                  (scan_symbol-InOrder s char h))))))

-- The state of the loop over a source of `size` bytes.
abbrev Reached : ℕ → LexState → Type 0
Reached size s = InOrder s × (s.offset + length s.rest ≡ size)

module _ (t : GoText) (c : Conforms t) (size : ℕ) where
  at_end : (s : LexState) → s.rest ≡ [] → Reached size s → Ordered 0 s.tokens size
  at_end s e (h, k) = Ordered-weaken 0 s.tokens s.offset size (omega (arith, k)) h

  scan-Reached :
      (s : LexState) (b : ℕ) (bs : List ℕ)
      → s.rest ≡ b ∷ bs
      → Reached size s
      → Where (Reached size) (scan t s (t.decode (b ∷ bs)).0 (t.decode (b ∷ bs)).1)
  scan-Reached s b bs e (h, k) =
      let (char, width) = t.decode (b ∷ bs) in
      let n : length s.rest ≡ suc (length bs) = ap length e in
      subst
        (λ total.
          Where (λ s'. InOrder s' × (s'.offset + length s'.rest ≡ total)) (scan t s char width))
        k
        (Where-both InOrder (Fits s) (scan t s char width) (scan-InOrder t s char width h)
          (scan-Fits t s (omega (arith, n)) char width c (omega (arith, n, c.width_le b bs))))

-- Where Go's functions on text conform to their documentation and the lexer succeeds on a source, its
-- tokens stand in order in the source and do not overlap: each begins at or behind the last byte of the
-- one in front of it, and the last one ends at the end of the source or in front of it.
pub tokenize-Ordered :
    (t : GoText) (source : List ℕ) (tokens : List Token)
    → Conforms t
    → tokenize t source ≡ some (done tokens)
    → Ordered 0 tokens (length source)
tokenize-Ordered t source tokens c =
    let size = length source in
    tokenize-Kept t (Reached size) (scan-Reached t c size) source tokens
      (λ tokens'. Ordered 0 tokens' size) (omega arith, omega arith)
      λ s h e.
        Ordered-weaken 0 _ (size + 0) size (omega arith)
          (Ordered-snoc 0 s.tokens _ size (at_end t c size s e h) refl)
