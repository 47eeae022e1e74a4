-- ===== src/Lexer/Tests.antt =====
-- The lexer on `x1 <<= 42;`, a comment and a string, and its theorems at them.
use go_lcc.Base.{
  ℕ, ◌+◌, ◌-◌, ◌*◌, ◌≡◌, refl, List, [], ◌∷◌, Bool, ◌&&◌, Option, none, some, inl, ◌==◌, leb,
  length, arith,
}
use go_lcc.Base.Int.{ℤ, pos}
use go_lcc.Outcome.{Outcome, done, failed}
use go_lcc.Lexer.Tokens.{GoText, TokenKind, Token, bytes_of}
use go_lcc.Lexer.Scan.{LexError}
use go_lcc.Lexer.Tokenize.{tokenize}
use go_lcc.Lexer.Progress.{Conforms}
use go_lcc.Lexer.Rounds.{HasTokens, tokenize-HasTokens}
use go_lcc.Lexer.Copied.{AllCopied, tokenize-AllCopied}
use go_lcc.Lexer.Order.{Ordered, tokenize-Ordered}

-- Go's functions on texts in ASCII.
abbrev first_byte : List ℕ → ℕ × ℕ
first_byte [] = (0, 0)
first_byte (b ∷ bs) = (b, 1)

abbrev ascii_digit : ℕ → Bool
ascii_digit b = leb b'0' b && leb b b'9'

abbrev decimal : ℕ → List ℕ → ℕ
decimal value [] = value
decimal value (b ∷ bs) = decimal (value * 10 + (b - b'0')) bs

abbrev ascii_int : List ℕ → Option ℤ
ascii_int [] = none
ascii_int (b ∷ bs) = some (pos (decimal 0 (b ∷ bs)))

abbrev ascii : GoText
ascii = record {
  decode = first_byte;
  is_space = λ b. b == b' ';
  is_letter = λ b. leb b'a' b && leb b b'z';
  is_digit = ascii_digit;
  parse_int = ascii_int;
  parse_float = λ text. some 0;
  encode = λ b. b ∷ [];
}

ascii-Conforms : Conforms ascii
ascii-Conforms = record {
  width = λ b bs. omega arith;
  digit_start = λ b bs h. inl h;
  width_le = λ b bs. omega arith;
  no_number = refl;
}

abbrev source : List ℕ
source = bytes_of "x1 <<= 42; // note\n\"a\\n\""

abbrev token_of : TokenKind → List ℕ → ℤ → ℕ → ℕ → ℕ → ℕ → Token
token_of kind text value line column offset length = record {
  kind = kind;
  text = text;
  int_value = value;
  float_value = 0;
  line = line;
  column = column;
  offset = offset;
  length = length;
}

abbrev source_tokens : List Token
source_tokens =
    token_of TokenKind.tok_ident (bytes_of "x1") (pos 0) 1 1 0 2
    ∷ token_of TokenKind.tok_shift_left_assign [] (pos 0) 1 4 3 3
    ∷ token_of TokenKind.tok_integer [] (pos 42) 1 8 7 2
    ∷ token_of TokenKind.tok_semicolon [] (pos 0) 1 10 9 1
    ∷ token_of TokenKind.tok_newline [] (pos 0) 1 19 18 1
    ∷ token_of TokenKind.tok_string (bytes_of "a\n") (pos 0) 2 1 19 5
    ∷ token_of TokenKind.tok_eof [] (pos 0) 2 6 24 0
    ∷ []

lexing_runs : tokenize ascii source ≡ some (done source_tokens)
unfolding tokenize
lexing_runs = refl

unclosed_runs :
    tokenize ascii (bytes_of "x /* y") ≡ some (failed (LexError.unterminated_comment 1 3))
unfolding tokenize
unclosed_runs = refl

tokenize-HasTokens_example :
    (r : Outcome LexError (List Token)) × (tokenize ascii source ≡ some r) × HasTokens r
tokenize-HasTokens_example = tokenize-HasTokens ascii source ascii-Conforms

tokenize-Ordered_example : Ordered 0 source_tokens (length source)
tokenize-Ordered_example = tokenize-Ordered ascii source source_tokens ascii-Conforms lexing_runs

tokenize-AllCopied_example : AllCopied source source_tokens
tokenize-AllCopied_example = tokenize-AllCopied ascii source source_tokens lexing_runs
