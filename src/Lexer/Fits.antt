-- ===== src/Lexer/Fits.antt =====
-- A step of Tokenize of cova/lex.go moves its position by the bytes that it takes of the source.
use go_lcc.Base.{
  ℕ, ◌+◌, ◌≤◌, ◌≡◌, List, [], ◌∷◌, true, ◌||◌, Option, none, some, ◌==◌, length, length-drop, drop,
  arith,
}
use go_lcc.Outcome.{Outcome, done, failed, panic, Where, Where-when}
use go_lcc.Lexer.Tokens.{GoText, Token}
use go_lcc.Lexer.Scan.{
  LexError, line_end, block_end, newline_width, ident_run, is_ident_start, tokenize_numeric_literal,
}
use go_lcc.Lexer.Tokenize.{
  LexState, scan_symbol, scan, skip_block, advance, emit_read, tokenize_string_literal,
  tokenize_operator, tokenize_delimiter, is_operator, is_delimiter, starts_pair, ident_token,
}
use go_lcc.Lexer.Progress.{Conforms}
use go_lcc.Lexer.Bounds.{Takes, line_end-le, newline_width-le, block_end-Takes, ident_run-le}
use go_lcc.Lexer.Widths.{
  Within, number-Within, string-Within, tokenize_operator-le, tokenize_delimiter-le,
}

-- Two states have the same source: the position and what is left of the source give the same size.
abbrev pub Fits : LexState → LexState → Type 0
Fits s s' = s'.offset + length s'.rest ≡ s.offset + length s.rest

moved :
    (s : LexState) (n : ℕ)
    → n ≤ length s.rest
    → (s.offset + n) + length (drop n s.rest) ≡ s.offset + length s.rest
moved s n h = omega (arith, h, length-drop n s.rest)

starts_pair-length :
    (char first second : ℕ) (text : List ℕ)
    → starts_pair char first second text ≡ true
    → 2 ≤ length text
starts_pair-length char first second [] h = ground arith
starts_pair-length char first second (b ∷ []) h = ground arith
starts_pair-length char first second (b ∷ c ∷ rest) h = omega arith

emit_read-Fits :
    (s : LexState) (m : Outcome LexError Token)
    → Where (Within (length s.rest)) m
    → Where (Fits s) (emit_read s m)
emit_read-Fits s (done token) h = moved s token.length h
emit_read-Fits s (failed e) h = tt
emit_read-Fits s panic h = tt

Where-Within :
    (n m : ℕ) (o : Outcome LexError Token) → n ≤ m → Where (Within n) o → Where (Within m) o
Where-Within n m (done token) le h = omega (arith, le, h)
Where-Within n m (failed e) le h = tt
Where-Within n m panic le h = tt

skip_block-Fits : (s : LexState) → 2 ≤ length s.rest → Where (Fits s) (skip_block s)
unfolding skip_block
skip_block-Fits s h =
    by_end (block_end (drop 2 s.rest) s.line (s.column + 2))
      (block_end-Takes (drop 2 s.rest) s.line (s.column + 2))
  where
    by_end :
        (o : Option (ℕ × ℕ × ℕ))
        → Takes (length (drop 2 s.rest)) o
        → Where (Fits s) (elim o [
          | none ↦ failed (LexError.unterminated_comment s.line s.column)
          | some (taken, line, column) ↦ done (advance s (2 + taken) line column)
        ])
    by_end none k = tt
    by_end (some (taken, line, column)) k =
        moved s (2 + taken) (omega (arith, h, k, length-drop 2 s.rest))

module _ (t : GoText) (s : LexState) (some_left : 1 ≤ length s.rest) where
  behind_one : (n : ℕ) → n ≤ 1 + length (drop 1 s.rest) → n ≤ length s.rest
  behind_one n h = omega (arith, h, some_left, length-drop 1 s.rest)

  scan_symbol-Fits : (char : ℕ) → Where (Fits s) (scan_symbol t s char)
  unfolding scan_symbol
  scan_symbol-Fits char =
      Where-when (Fits s) (char == b'"') _ _
        (λ e.
          emit_read-Fits s (tokenize_string_literal t s.line s.column s.offset (drop 1 s.rest)) (
            Where-Within (1 + length (drop 1 s.rest)) (length s.rest) _
              (behind_one (1 + length (drop 1 s.rest)) (omega arith))
              (string-Within t s.line s.column s.offset (drop 1 s.rest))))
        λ e.
          Where-when (Fits s) (is_operator char) _ _
            (λ e'. moved s (tokenize_operator s.rest) (tokenize_operator-le s.rest some_left))
            λ e'.
              Where-when (Fits s) (is_delimiter char) _ _
                (λ e''.
                  moved s (tokenize_delimiter s.rest) (tokenize_delimiter-le s.rest some_left))
                (λ e''. tt)

  pub scan-Fits :
      (char width : ℕ) → Conforms t → width ≤ length s.rest → Where (Fits s) (scan t s char width)
  unfolding scan ident_token
  scan-Fits char width c hw =
      let P = Fits s in
      let comment = line_end (drop 2 s.rest) in
      let ident = (ident_run t (length s.rest) (drop width s.rest)).0 in
      let newline = newline_width char (drop 1 s.rest) in
      Where-when P ((char == b'\n') || (char == b'\r')) _ _
        (λ e1. moved s newline (behind_one newline (newline_width-le char (drop 1 s.rest))))
        λ e1.
          Where-when P (t.is_space char) _ _ (λ e2. moved s width hw)
            λ e2.
              Where-when P (starts_pair char b'/' b'/' s.rest) _ _
                (λ e3. moved s (2 + comment) (
                  omega (
                    arith,
                    line_end-le (drop 2 s.rest),
                    length-drop 2 s.rest,
                    starts_pair-length char b'/' b'/' s.rest e3,
                  )))
                λ e3.
                  Where-when P (starts_pair char b'/' b'*' s.rest) _ _
                    (λ e4. skip_block-Fits s (starts_pair-length char b'/' b'*' s.rest e4))
                    λ e4.
                      Where-when P (is_ident_start t char) _ _
                        (λ e5. moved s (width + ident) (
                          omega (
                            arith,
                            hw,
                            length-drop width s.rest,
                            ident_run-le t c (length s.rest) (drop width s.rest),
                          )))
                        λ e5.
                          Where-when P (t.is_digit char) _ _
                            (λ e6.
                              emit_read-Fits s
                                (tokenize_numeric_literal t s.line s.column s.offset s.rest)
                                (number-Within t s.line s.column s.offset s.rest))
                            (λ e6. scan_symbol-Fits char)
