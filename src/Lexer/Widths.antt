-- ===== src/Lexer/Widths.antt =====
-- Each token of Tokenize of cova/lex.go takes bytes that the source has.
use go_lcc.Base.{
  ℕ, ◌+◌, ◌≤◌, ◌≡◌, List, [], ◌∷◌, Bool, ◌&&◌, ◌||◌, Option, none, some, ◌==◌, if◌then◌else◌,
  length, length-drop, take, drop, ltb, arith,
}
use go_lcc.Outcome.{Outcome, done, failed, panic, Where, Where-if, Where->>=}
use go_lcc.Lexer.Tokens.{GoText, TokenKind, Token}
use go_lcc.Lexer.Scan.{
  LexError, or_fail, digit_run, fraction, exponent, number_suffix, escape, finish_number,
  number_behind, tokenize_numeric_literal, has_float_mark,
}
use go_lcc.Lexer.Tokenize.{
  in_front, string_body, tokenize_string_literal, tokenize_operator, tokenize_delimiter,
}
use go_lcc.Lexer.Progress.{number_token-length}
use go_lcc.Lexer.Bounds.{Safe-Where, or_fail-Where, digit_run-le, fraction-le, exponent-le}

number_suffix-max :
    (kind : TokenKind) (n : ℕ) (text : List ℕ) → (number_suffix kind n text).1 ≤ n + length text
unfolding number_suffix
number_suffix-max kind n [] = omega arith
number_suffix-max kind n (b ∷ bs) = ground arith

-- A token that has at most n bytes.
abbrev pub Within : ℕ → Token → Type 0
Within n token = token.length ≤ n

module _ (t : GoText) (line column at : ℕ) where
  finish_number-Within :
      (text : List ℕ) (digits : ℕ)
      → digits ≤ length text
      → Where (Within (length text)) (finish_number t line column at text digits)
  unfolding finish_number
  finish_number-Within text digits h =
      let marked =
        if has_float_mark (take digits text)
        then TokenKind.tok_float32
        else TokenKind.tok_integer in
      let suffixed = number_suffix marked digits (drop digits text) in
      Safe-Where (λ token. token.length ≡ suffixed.1) (Within (length text)) _
        (number_token-length t line column at suffixed.0 suffixed.1 (take suffixed.1 text))
        λ token e.
          omega (
            arith,
            e,
            h,
            number_suffix-max marked digits (drop digits text),
            length-drop digits text,
          )

  pub number-Within :
      (text : List ℕ)
      → Where (Within (length text)) (tokenize_numeric_literal t line column at text)
  unfolding tokenize_numeric_literal number_behind
  number-Within text =
      let whole = digit_run t text in
      let error = LexError.invalid_numeric_literal line column in
      Where->>= (λ n. fraction t (drop whole text) ≡ some n) (Within (length text))
        (or_fail error (fraction t (drop whole text))) _
        (or_fail-Where error (fraction t (drop whole text)))
        λ n e.
          Where->>= (λ m. exponent t (drop (whole + n) text) ≡ some m) (Within (length text))
            (or_fail error (exponent t (drop (whole + n) text))) _
            (or_fail-Where error (exponent t (drop (whole + n) text)))
            λ m e'. finish_number-Within text (whole + n + m) (
              omega (
                arith,
                digit_run-le t text,
                fraction-le t (drop whole text) n e,
                exponent-le t (drop (whole + n) text) m e',
                length-drop whole text,
                length-drop (whole + n) text,
              ))

-- A text and its bytes, at most n.
abbrev Taken : ℕ → Outcome LexError (List ℕ × ℕ) → Type 0
Taken n = Where (λ r. r.1 ≤ n)

in_front-Taken :
    (char : List ℕ) (k n m : ℕ) (o : Outcome LexError (List ℕ × ℕ))
    → k + n ≤ m
    → Taken n o
    → Taken m (in_front char k o)
in_front-Taken char k n m (done (value, taken)) le h = omega (arith, le, h)
in_front-Taken char k n m (failed e) le h = tt
in_front-Taken char k n m panic le h = tt

escaped-Taken :
    (t : GoText) (line b c n k : ℕ) (o : Option ℕ) (m : Outcome LexError (List ℕ × ℕ))
    → 2 + n ≤ k
    → Taken n m
    → Taken k (elim o [
      | none ↦ failed (LexError.unsupported_escape line b c)
      | some char ↦ in_front (t.encode char) 2 m
    ])
escaped-Taken t line b c n k none m le h = tt
escaped-Taken t line b c n k (some char) m le h = in_front-Taken (t.encode char) 2 n k m le h

string_body-Taken :
    (t : GoText) (line : ℕ) (text : List ℕ) → Taken (length text) (string_body t line text)
unfolding string_body
string_body-Taken t line [] = tt
string_body-Taken t line (b ∷ []) =
    Where-if (λ r. r.1 ≤ 1) (b == b'"') (done ([], 1)) _ (omega arith) tt
string_body-Taken t line (b ∷ c ∷ rest) =
    let n = length (b ∷ c ∷ rest) in
    let P = λ (r : List ℕ × ℕ). r.1 ≤ n in
    Where-if P (b == b'"') (done ([], 1)) _ (omega arith) (
      Where-if P (b == b'\\') _ _
        (escaped-Taken t line b c (length rest) n (escape c) (string_body t line rest) (omega arith)
          (string_body-Taken t line rest))
        (Where-if P ((b == b'\n') || (b == b'\r')) (failed (LexError.unterminated_string line)) _ tt
          (in_front-Taken (t.encode b) 1 (length (c ∷ rest)) n (string_body t line (c ∷ rest))
            (omega arith) (string_body-Taken t line (c ∷ rest)))))

pub string-Within :
    (t : GoText) (line column at : ℕ) (text : List ℕ)
    → Where (Within (1 + length text)) (tokenize_string_literal t line column at text)
unfolding tokenize_string_literal
string-Within t line column at text =
    Where->>= (λ r. r.1 ≤ length text) (Within (1 + length text)) (string_body t line text) _
      (string_body-Taken t line text) (λ r h. omega (arith, h))

operator_width-le :
    (n : ℕ) (b c : Bool) → 1 ≤ n → (if ltb 2 n && b then 3 else if ltb 1 n && c then 2 else 1) ≤ n
operator_width-le n b c h = ground (arith, h)

pub tokenize_operator-le : (text : List ℕ) → 1 ≤ length text → tokenize_operator text ≤ length text
unfolding tokenize_operator
tokenize_operator-le text h = operator_width-le (length text) _ _ h

pub tokenize_delimiter-le :
    (text : List ℕ) → 1 ≤ length text → tokenize_delimiter text ≤ length text
unfolding tokenize_delimiter
tokenize_delimiter-le text h = operator_width-le (length text) _ _ h
