-- ===== src/Lexer/Copied.antt =====
-- Tokenize of cova/lex.go: the texts of the tokens are those of the source.
use go_lcc.Base.{
  ℕ, zero, suc, ◌+◌, ◌≡◌, refl, sym, ap, ◌∙◌, List, [], ◌∷◌, ◌++◌, ◌||◌, Option, none, some, ◌⊎◌,
  inl, inr, ◌==◌, length, take, drop, arith,
}
use go_lcc.Outcome.{Outcome, done, failed, panic, Where, Where-if, Where-any}
use go_lcc.Lexer.Tokens.{GoText, TokenKind, Token}
use go_lcc.Lexer.Scan.{
  LexError, or_fail, fraction, exponent, digit_run, number_token, finish_number, number_behind,
  tokenize_numeric_literal, trim_suffix, is_ident_start, block_end, ident_run, line_end,
}
use go_lcc.Lexer.Tokenize.{
  LexState, scan_symbol, scan, tokenize, skip_block, advance, emit_read, tokenize_string_literal,
  string_body, is_operator, is_delimiter, starts_pair, ident_token,
}
use go_lcc.Lexer.Keeps.{tokenize-Kept}

-- A token has no text, or is a string literal, or has the bytes of the source at its place.
abbrev pub IsCopied : List ℕ → Token → Type 0
IsCopied source token =
    (token.text ≡ [])
    ⊎ ((token.kind ≡ TokenKind.tok_string)
        ⊎ (token.text ≡ take token.length (drop token.offset source)))

abbrev pub AllCopied : List ℕ → List Token → Type 0
AllCopied source [] = Unit
AllCopied source (token ∷ tokens) = IsCopied source token × AllCopied source tokens

AllCopied-snoc :
    (source : List ℕ) (tokens : List Token) (token : Token)
    → AllCopied source tokens
    → IsCopied source token
    → AllCopied source (tokens ++ (token ∷ []))
AllCopied-snoc source [] token h k = (k, tt)
AllCopied-snoc source (t ∷ tokens) token (h, hs) k = (h, AllCopied-snoc source tokens token hs k)

drop_nil : (n : ℕ) → drop {A = ℕ} n [] ≡ []
drop_nil zero = refl
drop_nil (suc n) = refl

drop-drop : (n k : ℕ) (xs : List ℕ) → drop n (drop k xs) ≡ drop (k + n) xs
drop-drop n zero xs = ap (λ i. drop i xs) (omega arith)
drop-drop n (suc k) [] = drop_nil n ∙ sym (drop_nil (suc k + n))
drop-drop n (suc k) (x ∷ xs) =
    let shift : suc (k + n) ≡ suc k + n = omega arith in
    drop-drop n k xs ∙ ap (λ i. drop i (x ∷ xs)) shift

module _ (t : GoText) (source : List ℕ) (line column at : ℕ) where
  number_token-IsCopied :
      (kind : TokenKind) (n : ℕ) (value : List ℕ)
      → Where (IsCopied source) (number_token t line column at kind n value)
  unfolding number_token
  number_token-IsCopied TokenKind.tok_integer n value =
      Where-any (IsCopied source)
        (or_fail (LexError.invalid_integer_literal line column) (t.parse_int value)) _
        (λ a. inl refl)
  number_token-IsCopied kind n value =
      let text = trim_suffix b'D' (trim_suffix b'd' (trim_suffix b'F' (trim_suffix b'f' value))) in
      Where-any (IsCopied source)
        (or_fail (LexError.invalid_float_literal line column) (t.parse_float text)) _
        (λ a. inl refl)

  number-IsCopied :
      (text : List ℕ) → Where (IsCopied source) (tokenize_numeric_literal t line column at text)
  unfolding tokenize_numeric_literal number_behind finish_number
  number-IsCopied text =
      let whole = digit_run t text in
      let error = LexError.invalid_numeric_literal line column in
      Where-any (IsCopied source) (or_fail error (fraction t (drop whole text))) _ λ n.
        Where-any (IsCopied source) (or_fail error (exponent t (drop (whole + n) text))) _
          (λ m. number_token-IsCopied _ _ _)

  string-IsCopied :
      (text : List ℕ) → Where (IsCopied source) (tokenize_string_literal t line column at text)
  unfolding tokenize_string_literal
  string-IsCopied text =
      Where-any (IsCopied source) (string_body t line text) _ (λ r. inr (inl refl))

-- The loop is in the source at its position.
abbrev Inside : List ℕ → LexState → Type 0
Inside source s = (s.rest ≡ drop s.offset source) × AllCopied source s.tokens

module _ (source : List ℕ) (s : LexState) (h : Inside source s) where
  behind : (n : ℕ) → drop n s.rest ≡ drop (s.offset + n) source
  behind n = ap (drop n) h.0 ∙ drop-drop n s.offset source

  emit-Inside :
      (token : Token)
      → IsCopied source token
      → (drop token.length s.rest ≡ drop (s.offset + token.length) source)
        × AllCopied source (s.tokens ++ (token ∷ []))
  emit-Inside token k = (behind token.length, AllCopied-snoc source s.tokens token h.1 k)

  emit_read-Inside :
      (m : Outcome LexError Token)
      → Where (IsCopied source) m
      → Where (Inside source) (emit_read s m)
  emit_read-Inside (done token) k = emit-Inside token k
  emit_read-Inside (failed e) k = tt
  emit_read-Inside panic k = tt

  skip_block-Inside : Where (Inside source) (skip_block s)
  unfolding skip_block
  skip_block-Inside = by_end (block_end (drop 2 s.rest) s.line (s.column + 2))
    where
      by_end :
          (o : Option (ℕ × ℕ × ℕ))
          → Where (Inside source) (elim o [
            | none ↦ failed (LexError.unterminated_comment s.line s.column)
            | some (taken, line, column) ↦ done (advance s (2 + taken) line column)
          ])
      by_end none = tt
      by_end (some (taken, line, column)) = (behind (2 + taken), h.1)

  module _ (t : GoText) where
    scan_symbol-Inside : (char : ℕ) → Where (Inside source) (scan_symbol t s char)
    unfolding scan_symbol
    scan_symbol-Inside char =
        let P = Inside source in
        Where-if P (char == b'"') _ _
          (emit_read-Inside (tokenize_string_literal t s.line s.column s.offset (drop 1 s.rest))
            (string-IsCopied t source s.line s.column s.offset (drop 1 s.rest)))
          (Where-if P (is_operator char) _ _ (emit-Inside _ (inl refl))
            (Where-if P (is_delimiter char) _ _ (emit-Inside _ (inl refl)) tt))

    scan-Inside : (char width : ℕ) → Where (Inside source) (scan t s char width)
    unfolding scan ident_token
    scan-Inside char width =
        let P = Inside source in
        let comment = 2 + line_end (drop 2 s.rest) in
        let ident = width + (ident_run t (length s.rest) (drop width s.rest)).0 in
        Where-if P ((char == b'\n') || (char == b'\r')) _ _ (emit-Inside _ (inl refl)) (
          Where-if P (t.is_space char) _ _ (behind width, h.1)
            (Where-if P (starts_pair char b'/' b'/' s.rest) _ _ (behind comment, h.1)
              (Where-if P (starts_pair char b'/' b'*' s.rest) _ _ skip_block-Inside (
                Where-if P (is_ident_start t char) _ _
                  (emit-Inside (ident_token s ident) (inr (inr (ap (take ident) h.0))))
                  (Where-if P (t.is_digit char) _ _
                    (emit_read-Inside (tokenize_numeric_literal t s.line s.column s.offset s.rest)
                      (number-IsCopied t source s.line s.column s.offset s.rest))
                    (scan_symbol-Inside char))))))

-- Where the lexer succeeds on a source, each token has no text, or is a string literal, or has as its
-- text the bytes of the source at its offset, of its length.
pub tokenize-AllCopied :
    (t : GoText) (source : List ℕ) (tokens : List Token)
    → tokenize t source ≡ some (done tokens)
    → AllCopied source tokens
tokenize-AllCopied t source tokens =
    tokenize-Kept t (Inside source)
      (λ s b bs e h. scan-Inside source s h t (t.decode (b ∷ bs)).0 (t.decode (b ∷ bs)).1) source
      tokens (AllCopied source) (refl, tt)
      (λ s h e. AllCopied-snoc source s.tokens _ h.1 (inl refl))
