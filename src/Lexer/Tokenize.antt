-- ===== src/Lexer/Tokenize.antt =====
-- Tokenize of cova/lex.go: string literals, operators and delimiters, and the loop over the source.
use Prim.Native.String.{String}
use go_lcc.Base.{
  ℕ, zero, suc, ◌+◌, List, [], ◌∷◌, ◌++◌, Bool, false, ◌&&◌, ◌||◌, Option, none, some, ◌==◌, ltb,
  if◌then◌else◌, length, take, drop,
}
use go_lcc.Base.Int.{pos}
use go_lcc.Outcome.{Outcome, done, failed, panic, ◌>>=◌}
use go_lcc.Lexer.Tokens.{
  GoText, TokenKind, Token, same_bytes, kind_in, bytes_of, keywords, operator_kinds,
  delimiter_kinds,
}
use go_lcc.Lexer.Scan.{
  LexError, line_end, block_end, newline_width, is_ident_start, ident_run, tokenize_numeric_literal,
  plain_token, escape,
}

-- One more character in front of the rest of a string literal, and the bytes that it took.
abbrev pub in_front : List ℕ → ℕ → Outcome LexError (List ℕ × ℕ) → Outcome LexError (List ℕ × ℕ)
in_front char n (done (value, taken)) = done (char ++ value, n + taken)
in_front char n (failed e) = failed e
in_front char n panic = panic

-- The loop of tokenizeStringLiteral, behind the opening quote: the text of the literal, and the bytes up
-- to and with the closing quote. A byte of the source is taken for a character.
unfoldable pub string_body : GoText → ℕ → List ℕ → Outcome LexError (List ℕ × ℕ)
unfolding escape
string_body t line [] = failed (LexError.unterminated_string line)
string_body t line (b ∷ []) =
    if b == b'"' then done ([], 1) else failed (LexError.unterminated_string line)
string_body t line (b ∷ c ∷ rest) =
    let behind = string_body t line (c ∷ rest) in
    let escaped = string_body t line rest in
    if b == b'"'
    then done ([], 1)
    else if b == b'\\'
    then elim (escape c) [
      | none ↦ failed (LexError.unsupported_escape line b c)
      | some char ↦ in_front (t.encode char) 2 escaped
    ]
    else if (b == b'\n') || (b == b'\r')
    then failed (LexError.unterminated_string line)
    else in_front (t.encode b) 1 behind

-- tokenizeStringLiteral, on the text behind the opening quote.
unfoldable pub tokenize_string_literal : GoText → ℕ → ℕ → ℕ → List ℕ → Outcome LexError Token
unfolding string_body ◌>>=◌
tokenize_string_literal t line column offset text = do
  (value, taken) ← string_body t line text
  done record {
    kind = TokenKind.tok_string;
    text = value;
    int_value = pos 0;
    float_value = 0;
    line = line;
    column = column;
    offset = offset;
    length = 1 + taken;
  }

-- A text is one of the spellings of a `switch`.
abbrev one_of : List String → List ℕ → Bool
unfolding same_bytes
one_of [] text = false
one_of (s ∷ ss) text = same_bytes (bytes_of s) text || one_of ss text

abbrev long_operators : List String
long_operators = "<<=" ∷ ">>=" ∷ []

abbrev pair_operators : List String
pair_operators =
    "++" ∷ "--" ∷ "->" ∷ "==" ∷ "!=" ∷ "<=" ∷ ">=" ∷ "&&" ∷ "||" ∷ "<<" ∷ ">>" ∷ "+=" ∷ "-=" ∷ "*="
    ∷ "/=" ∷ "%=" ∷ "&=" ∷ "|=" ∷ "^=" ∷ []

-- The width of an operator in tokenizeOperator, whose text is that many bytes.
unfoldable pub tokenize_operator : List ℕ → ℕ
unfolding same_bytes
tokenize_operator text =
    if ltb 2 (length text) && one_of long_operators (take 3 text)
    then 3
    else if ltb 1 (length text) && one_of pair_operators (take 2 text)
    then 2
    else 1

-- The width of a delimiter in tokenizeDelimiter.
unfoldable pub tokenize_delimiter : List ℕ → ℕ
unfolding same_bytes
tokenize_delimiter text =
    if ltb 2 (length text) && one_of ("..." ∷ []) (take 3 text)
    then 3
    else if ltb 1 (length text) && one_of ("::" ∷ "##" ∷ []) (take 2 text)
    then 2
    else 1

abbrev among : List ℕ → ℕ → Bool
among [] char = false
among (c ∷ cs) char = (char == c) || among cs char

-- isOperator and isDelimiter
unfoldable pub is_operator : ℕ → Bool
is_operator = among (bytes_of "+-*/%=!<>&|^~")

unfoldable pub is_delimiter : ℕ → Bool
is_delimiter = among (bytes_of "(){}[];,:.?#")

-- Go gives the zero value, TokEOF, for a missing key.
abbrev pub kind_or_eof : Option TokenKind → TokenKind
kind_or_eof none = TokenKind.tok_eof
kind_or_eof (some kind) = kind

-- The state of the loop: what is left of the source, its position, and the tokens so far.
pub record LexState : Type 0 where
  pub rest : List ℕ
  pub offset : ℕ
  pub line : ℕ
  pub column : ℕ
  pub tokens : List Token

-- The loop behind n bytes, on a given line and column.
abbrev pub advance : LexState → ℕ → ℕ → ℕ → LexState
advance s n line column = record {
  rest = drop n s.rest;
  offset = s.offset + n;
  line = line;
  column = column;
  tokens = s.tokens;
}

-- The loop behind a token.
abbrev pub emit : LexState → Token → ℕ → ℕ → LexState
emit s token line column = record {
  rest = drop token.length s.rest;
  offset = s.offset + token.length;
  line = line;
  column = column;
  tokens = s.tokens ++ (token ∷ []);
}

-- A token that moves the column by its bytes.
abbrev pub emit_wide : LexState → Token → LexState
emit_wide s token = emit s token s.line (s.column + token.length)

-- The loop behind a literal, or the literal's error.
abbrev pub emit_read : LexState → Outcome LexError Token → Outcome LexError LexState
emit_read s (done token) = done (emit_wide s token)
emit_read s (failed e) = failed e
emit_read s panic = panic

-- char == first, and the text has second behind its first byte.
abbrev pub starts_pair : ℕ → ℕ → ℕ → List ℕ → Bool
starts_pair char first second [] = false
starts_pair char first second (b ∷ []) = false
starts_pair char first second (b ∷ c ∷ rest) = (char == first) && (c == second)

-- The token of an identifier of n bytes.
unfoldable pub ident_token : LexState → ℕ → Token
unfolding kind_in
ident_token s n =
    let value = take n s.rest in
    record {
      kind = elim (kind_in keywords value) [ some k ↦ k | none ↦ TokenKind.tok_ident ];
      text = value;
      int_value = pos 0;
      float_value = 0;
      line = s.line;
      column = s.column;
      offset = s.offset;
      length = n;
    }

-- The step behind "/*".
unfoldable pub skip_block : LexState → Outcome LexError LexState
unfolding block_end
skip_block s = elim (block_end (drop 2 s.rest) s.line (s.column + 2)) [
  | none ↦ failed (LexError.unterminated_comment s.line s.column)
  | some (taken, line, column) ↦ done (advance s (2 + taken) line column)
]

module _ (t : GoText) where
  -- The last cases of the `switch` of Tokenize: strings, operators and delimiters.
  unfoldable pub scan_symbol : LexState → ℕ → Outcome LexError LexState
  unfolding tokenize_string_literal tokenize_operator tokenize_delimiter is_operator is_delimiter
      kind_in
  scan_symbol s char =
      let operator = tokenize_operator s.rest in
      let delimiter = tokenize_delimiter s.rest in
      if char == b'"'
      then emit_read s (tokenize_string_literal t s.line s.column s.offset (drop 1 s.rest))
      else if is_operator char
      then done (
          emit_wide s (
            plain_token (kind_or_eof (kind_in operator_kinds (take operator s.rest))) s.line
              s.column s.offset operator))
      else if is_delimiter char
      then done (
          emit_wide s (
            plain_token (kind_or_eof (kind_in delimiter_kinds (take delimiter s.rest))) s.line
              s.column s.offset delimiter))
      else failed (LexError.unrecognized_symbol s.line s.column char)

  -- The `switch` of Tokenize on a character, of a given width.
  unfoldable pub scan : LexState → ℕ → ℕ → Outcome LexError LexState
  unfolding line_end newline_width is_ident_start ident_run tokenize_numeric_literal ident_token
      skip_block scan_symbol
  scan s char width =
      let comment = 2 + line_end (drop 2 s.rest) in
      let ident = ident_run t (length s.rest) (drop width s.rest) in
      if (char == b'\n') || (char == b'\r')
      then done (
          emit s
            (plain_token TokenKind.tok_newline s.line s.column s.offset
              (newline_width char (drop 1 s.rest)))
            (s.line + 1) 1)
      else if t.is_space char
      then done (advance s width s.line (s.column + 1))
      else if starts_pair char b'/' b'/' s.rest
      then done (advance s comment s.line (s.column + comment))
      else if starts_pair char b'/' b'*' s.rest
      then skip_block s
      else if is_ident_start t char
      then done (emit s (ident_token s (width + ident.0)) s.line (s.column + 1 + ident.1))
      else if t.is_digit char
      then emit_read s (tokenize_numeric_literal t s.line s.column s.offset s.rest)
      else scan_symbol s char

  -- A round of the loop on what is left of the source, and the rounds behind it. The loop ends at the end
  -- of the source and at an error.
  unfoldable pub round :
      LexState
      → List ℕ
      → (LexState → Option (Outcome LexError LexState))
      → Option (Outcome LexError LexState)
  unfolding scan
  round s [] next = some (done s)
  round s (b ∷ bs) next = elim (scan s (t.decode (b ∷ bs)).0 (t.decode (b ∷ bs)).1) [
    | done s' ↦ next s'
    | failed e ↦ some (failed e)
    | panic ↦ some panic
  ]

  -- The loop without fuel.
  abbrev pub ended : LexState → List ℕ → Option (Outcome LexError LexState)
  ended s [] = some (done s)
  ended s (b ∷ bs) = none

  -- The loop of Tokenize: one unit of fuel for each round, `none` where it runs out.
  unfoldable pub tokenize_loop : ℕ → LexState → Option (Outcome LexError LexState)
  unfolding round
  tokenize_loop zero s = ended s s.rest
  tokenize_loop (suc fuel) s = round s s.rest (tokenize_loop fuel)

  -- The token at the end, behind `size` bytes.
  abbrev pub finish : ℕ → Outcome LexError LexState → Outcome LexError (List Token)
  finish size (done s) =
      done (s.tokens ++ (plain_token TokenKind.tok_eof s.line s.column size 0 ∷ []))
  finish size (failed e) = failed e
  finish size panic = panic

  abbrev pub finished :
      ℕ → Option (Outcome LexError LexState) → Option (Outcome LexError (List Token))
  finished size none = none
  finished size (some r) = some (finish size r)

  abbrev pub start : List ℕ → LexState
  start source = record { rest = source; offset = 0; line = 1; column = 1; tokens = [] }

  -- Tokenize, with one round for each byte of the source.
  unfoldable pub tokenize : List ℕ → Option (Outcome LexError (List Token))
  unfolding tokenize_loop
  tokenize source = finished (length source) (tokenize_loop (length source) (start source))
