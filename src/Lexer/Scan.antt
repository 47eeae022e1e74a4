-- ===== src/Lexer/Scan.antt =====
-- The parts of Tokenize of cova/lex.go that read one token, a comment or a run of white space. The text
-- is what is left of the source, src[index:], and each function gives the bytes that it takes.
use go_lcc.Base.{
  ℕ, zero, suc, ◌+◌, List, [], ◌∷◌, Bool, false, ◌&&◌, ◌||◌, Option, none, some, ◌==◌,
  if◌then◌else◌, length, take, drop,
}
use go_lcc.Base.Int.{pos}
use go_lcc.Outcome.{Outcome, done, failed, ◌>>=◌}
use go_lcc.Lexer.Tokens.{GoText, TokenKind, Token}

-- The errors of the lexer, with line and column where their message has them.
pub data LexError : Type 0 where
  unterminated_comment invalid_numeric_literal invalid_integer_literal invalid_float_literal :
      ℕ → ℕ → LexError
  unterminated_string : ℕ → LexError
  unsupported_escape unrecognized_symbol : ℕ → ℕ → ℕ → LexError

-- The bytes in front of the end of a line, and behind a line comment.
unfoldable pub line_end : List ℕ → ℕ
line_end [] = 0
line_end (b ∷ bs) = let later = line_end bs in if (b == b'\n') || (b == b'\r') then 0 else suc later

-- What a block comment takes behind its opening, with the line and the column there. `none` is a
-- comment that does not end.
abbrev pub further : ℕ → Option (ℕ × ℕ × ℕ) → Option (ℕ × ℕ × ℕ)
further n none = none
further n (some (taken, line, column)) = some (n + taken, line, column)

unfoldable pub block_end : List ℕ → ℕ → ℕ → Option (ℕ × ℕ × ℕ)
block_end [] line column = none
block_end (b ∷ []) line column = none
block_end (b ∷ c ∷ rest) line column =
    let behind_line = further 2 (block_end rest (line + 1) 1) in
    let next_line = further 1 (block_end (c ∷ rest) (line + 1) 1) in
    let next = further 1 (block_end (c ∷ rest) line (column + 1)) in
    if (b == b'*') && (c == b'/')
    then some (2, line, column + 2)
    else if (b == b'\n') || (b == b'\r')
    then (if (b == b'\r') && (c == b'\n') then behind_line else next_line)
    else next

-- The width of a line ending.
unfoldable pub newline_width : ℕ → List ℕ → ℕ
newline_width char [] = 1
newline_width char (c ∷ rest) = if (char == b'\r') && (c == b'\n') then 2 else 1

module _ (t : GoText) where
  -- isIdentStart and isIdentPart
  unfoldable pub is_ident_start : ℕ → Bool
  is_ident_start char = (char == b'_') || t.is_letter char

  unfoldable pub is_ident_part : ℕ → Bool
  unfolding is_ident_start
  is_ident_part char = is_ident_start char || t.is_digit char

  -- The loop over an identifier's characters: its bytes and its columns. Each character takes a unit
  -- of fuel.
  unfoldable pub ident_run : ℕ → List ℕ → ℕ × ℕ
  unfolding is_ident_part
  ident_run zero text = (0, 0)
  ident_run (suc fuel) [] = (0, 0)
  ident_run (suc fuel) (b ∷ bs) =
      let (char, width) = t.decode (b ∷ bs) in
      let later = ident_run fuel (drop width (b ∷ bs)) in
      if is_ident_part char then (width + later.0, 1 + later.1) else (0, 0)

  -- for index < len(src) && unicode.IsDigit(rune(src[index]))
  unfoldable pub digit_run : List ℕ → ℕ
  digit_run [] = 0
  digit_run (b ∷ bs) = let later = digit_run bs in if t.is_digit b then suc later else 0

  -- A run of digits that has one; `none` is an error.
  unfoldable pub some_digits : List ℕ → Option ℕ
  unfolding digit_run
  some_digits [] = none
  some_digits (b ∷ bs) = if t.is_digit b then some (digit_run (b ∷ bs)) else none

  -- "." and digits, if the text starts with ".".
  unfoldable pub fraction : List ℕ → Option ℕ
  unfolding some_digits
  fraction [] = some 0
  fraction (b ∷ bs) =
      let digits = some_digits bs in
      if b == b'.' then elim digits [ some n ↦ some (1 + n) | none ↦ none ] else some 0

  abbrev pub sign_width : List ℕ → ℕ
  sign_width [] = 0
  sign_width (b ∷ bs) = if (b == b'+') || (b == b'-') then 1 else 0

  -- "e" or "E", a sign and digits, if the text starts with "e" or "E".
  unfoldable pub exponent : List ℕ → Option ℕ
  unfolding some_digits
  exponent [] = some 0
  exponent (b ∷ bs) =
      let digits = some_digits (drop (sign_width bs) bs) in
      if (b == b'e') || (b == b'E')
      then elim digits [ some n ↦ some (1 + sign_width bs + n) | none ↦ none ]
      else some 0

-- strings.ContainsAny(text, ".eE")
unfoldable pub has_float_mark : List ℕ → Bool
has_float_mark [] = false
has_float_mark (b ∷ bs) = (b == b'.') || (b == b'e') || (b == b'E') || has_float_mark bs

-- The kind of a number and its bytes, by the byte behind n bytes of it.
unfoldable pub number_suffix : TokenKind → ℕ → List ℕ → TokenKind × ℕ
number_suffix kind n [] = (kind, n)
number_suffix kind n (b ∷ bs) =
    if (b == b'f') || (b == b'F')
    then (TokenKind.tok_float32, n + 1)
    else if (b == b'd') || (b == b'D')
    then (TokenKind.tok_float64, n + 1)
    else (kind, n)

-- strings.TrimSuffix(text, s) for a text s of one byte.
unfoldable pub trim_suffix : ℕ → List ℕ → List ℕ
trim_suffix s [] = []
trim_suffix s (b ∷ []) = if b == s then [] else b ∷ []
trim_suffix s (b ∷ c ∷ rest) = b ∷ trim_suffix s (c ∷ rest)

-- A token with no value.
abbrev pub plain_token : TokenKind → ℕ → ℕ → ℕ → ℕ → Token
plain_token kind line column offset length = record {
  kind = kind;
  text = [];
  int_value = pos 0;
  float_value = 0;
  line = line;
  column = column;
  offset = offset;
  length = length;
}

abbrev pub or_fail : {A : Type 0} → LexError → Option A → Outcome LexError A
or_fail e none = failed e
or_fail e (some a) = done a

module _ (t : GoText) (line column offset : ℕ) where
  -- The token of a number, from its kind, its bytes and its text.
  unfoldable pub number_token : TokenKind → ℕ → List ℕ → Outcome LexError Token
  unfolding trim_suffix ◌>>=◌
  number_token TokenKind.tok_integer n value = do
    parsed ← or_fail (LexError.invalid_integer_literal line column) (t.parse_int value)
    done record {
      kind = TokenKind.tok_integer;
      text = [];
      int_value = parsed;
      float_value = 0;
      line = line;
      column = column;
      offset = offset;
      length = n;
    }
  number_token kind n value = do
    parsed ← or_fail (LexError.invalid_float_literal line column) (
        t.parse_float
          (trim_suffix b'D' (trim_suffix b'd' (trim_suffix b'F' (trim_suffix b'f' value)))))
    done record {
      kind = kind;
      text = [];
      int_value = pos 0;
      float_value = parsed;
      line = line;
      column = column;
      offset = offset;
      length = n;
    }

  -- tokenizeNumericLiteral, behind its digits.
  unfoldable pub finish_number : List ℕ → ℕ → Outcome LexError Token
  unfolding has_float_mark number_suffix number_token
  finish_number text digits =
      let marked =
        if has_float_mark (take digits text)
        then TokenKind.tok_float32
        else TokenKind.tok_integer in
      let suffixed = number_suffix marked digits (drop digits text) in
      number_token suffixed.0 suffixed.1 (take suffixed.1 text)

  -- tokenizeNumericLiteral, behind its first run of digits.
  unfoldable pub number_behind : ℕ → List ℕ → Outcome LexError Token
  unfolding fraction exponent finish_number ◌>>=◌
  number_behind whole text = do
    fractional ←
        or_fail (LexError.invalid_numeric_literal line column) (fraction t (drop whole text))
    scaled ←
        or_fail (LexError.invalid_numeric_literal line column)
          (exponent t (drop (whole + fractional) text))
    finish_number text (whole + fractional + scaled)

  -- tokenizeNumericLiteral; the token's length is the bytes that it takes.
  unfoldable pub tokenize_numeric_literal : List ℕ → Outcome LexError Token
  unfolding digit_run number_behind
  tokenize_numeric_literal text = number_behind (digit_run t text) text

-- The character of an escape.
unfoldable pub escape : ℕ → Option ℕ
escape char =
    if char == b'"'
    then some b'"'
    else if char == b'\\'
    then some b'\\'
    else if char == b'n'
    then some b'\n'
    else if char == b'r'
    then some b'\r'
    else if char == b't'
    then some b'\t'
    else if char == b'0'
    then some 0
    else none
