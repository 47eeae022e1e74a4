-- ===== src/Lexer/Tokens.antt =====
-- The tokens of cova/lex.go: their kinds, the tables of keywords, operators and delimiters, and the
-- functions of Go's libraries that the lexer calls. A text is the list of its bytes.
use Prim.Native.String.{String}
use Prim.Native.Char.{code}
use go_lcc.Base.{ℕ, List, [], ◌∷◌, Bool, true, false, ◌&&◌, Option, none, some, ◌==◌, if◌then◌else◌}
use go_lcc.Base.Int.{ℤ}

-- What the lexer takes from unicode/utf8, unicode and strconv. They are arguments of the definitions
-- that use them. `decode` gives the first character of a text with its width in bytes.
pub record GoText : Type 0 where
  pub decode : List ℕ → ℕ × ℕ
  pub is_space : ℕ → Bool
  pub is_letter : ℕ → Bool
  pub is_digit : ℕ → Bool
  -- strconv.ParseInt(text, 10, 64), and strconv.ParseFloat(text, 64) as a pattern
  pub parse_int : List ℕ → Option ℤ
  pub parse_float : List ℕ → Option ℕ
  -- string(char)
  pub encode : ℕ → List ℕ

pub data TokenKind : Type 0 where
  tok_eof tok_ident tok_string tok_integer tok_float32 tok_float64 tok_newline tok_break tok_case
        tok_const tok_continue tok_default tok_else tok_extern tok_false tok_bool tok_byte
        tok_float32_type tok_float64_type tok_for tok_if tok_int8 tok_int16 tok_int32 tok_int64
        tok_return tok_switch tok_true tok_uint8 tok_uint16 tok_uint32 tok_uint64 tok_void tok_while
        tok_int tok_float tok_plus tok_minus tok_star tok_slash tok_percent tok_increment
        tok_decrement tok_arrow tok_equal tok_not_equal tok_less tok_less_equal tok_greater
        tok_greater_equal tok_logical_and tok_logical_or tok_shift_left tok_shift_right tok_assign
        tok_plus_assign tok_minus_assign tok_star_assign tok_slash_assign tok_percent_assign
        tok_shift_left_assign tok_shift_right_assign tok_and_assign tok_or_assign tok_xor_assign
        tok_amp tok_pipe tok_caret tok_tilde tok_bang tok_lparen tok_rparen tok_lbrace tok_rbrace
        tok_lbracket tok_rbracket tok_semicolon tok_comma tok_colon tok_colon_colon tok_dot
        tok_ellipsis tok_question tok_hash tok_hash_hash :
      TokenKind

pub record Token : Type 0 where
  pub kind : TokenKind
  pub text : List ℕ
  pub int_value : ℤ
  pub float_value : ℕ
  pub line : ℕ
  pub column : ℕ
  pub offset : ℕ
  pub length : ℕ

-- The bytes of a text in ASCII.
abbrev pub bytes_of : String → List ℕ
bytes_of String.[] = []
bytes_of (String.◌∷◌ c s) = code c ∷ bytes_of s

unfoldable pub same_bytes : List ℕ → List ℕ → Bool
same_bytes [] [] = true
same_bytes [] (y ∷ ys) = false
same_bytes (x ∷ xs) [] = false
same_bytes (x ∷ xs) (y ∷ ys) = (x == y) && same_bytes xs ys

-- kind, ok := table[text]
unfoldable pub kind_in : List (String × TokenKind) → List ℕ → Option TokenKind
unfolding same_bytes
kind_in [] text = none
kind_in ((spelling, kind) ∷ table) text =
    let later = kind_in table text in
    if same_bytes (bytes_of spelling) text then some kind else later

abbrev pub keywords : List (String × TokenKind)
keywords =
    ("break", TokenKind.tok_break)
    ∷ ("case", TokenKind.tok_case)
    ∷ ("const", TokenKind.tok_const)
    ∷ ("continue", TokenKind.tok_continue)
    ∷ ("default", TokenKind.tok_default)
    ∷ ("else", TokenKind.tok_else)
    ∷ ("extern", TokenKind.tok_extern)
    ∷ ("false", TokenKind.tok_false)
    ∷ ("bool", TokenKind.tok_bool)
    ∷ ("byte", TokenKind.tok_byte)
    ∷ ("float32", TokenKind.tok_float32_type)
    ∷ ("float64", TokenKind.tok_float64_type)
    ∷ ("for", TokenKind.tok_for)
    ∷ ("if", TokenKind.tok_if)
    ∷ ("int8", TokenKind.tok_int8)
    ∷ ("int16", TokenKind.tok_int16)
    ∷ ("int32", TokenKind.tok_int32)
    ∷ ("int64", TokenKind.tok_int64)
    ∷ ("return", TokenKind.tok_return)
    ∷ ("switch", TokenKind.tok_switch)
    ∷ ("true", TokenKind.tok_true)
    ∷ ("uint8", TokenKind.tok_uint8)
    ∷ ("uint16", TokenKind.tok_uint16)
    ∷ ("uint32", TokenKind.tok_uint32)
    ∷ ("uint64", TokenKind.tok_uint64)
    ∷ ("void", TokenKind.tok_void)
    ∷ ("while", TokenKind.tok_while)
    ∷ ("int", TokenKind.tok_int)
    ∷ ("float", TokenKind.tok_float)
    ∷ []

abbrev pub operator_kinds : List (String × TokenKind)
operator_kinds =
    ("+", TokenKind.tok_plus)
    ∷ ("-", TokenKind.tok_minus)
    ∷ ("*", TokenKind.tok_star)
    ∷ ("/", TokenKind.tok_slash)
    ∷ ("%", TokenKind.tok_percent)
    ∷ ("++", TokenKind.tok_increment)
    ∷ ("--", TokenKind.tok_decrement)
    ∷ ("->", TokenKind.tok_arrow)
    ∷ ("==", TokenKind.tok_equal)
    ∷ ("!=", TokenKind.tok_not_equal)
    ∷ ("<", TokenKind.tok_less)
    ∷ ("<=", TokenKind.tok_less_equal)
    ∷ (">", TokenKind.tok_greater)
    ∷ (">=", TokenKind.tok_greater_equal)
    ∷ ("&&", TokenKind.tok_logical_and)
    ∷ ("||", TokenKind.tok_logical_or)
    ∷ ("<<", TokenKind.tok_shift_left)
    ∷ (">>", TokenKind.tok_shift_right)
    ∷ ("=", TokenKind.tok_assign)
    ∷ ("+=", TokenKind.tok_plus_assign)
    ∷ ("-=", TokenKind.tok_minus_assign)
    ∷ ("*=", TokenKind.tok_star_assign)
    ∷ ("/=", TokenKind.tok_slash_assign)
    ∷ ("%=", TokenKind.tok_percent_assign)
    ∷ ("<<=", TokenKind.tok_shift_left_assign)
    ∷ (">>=", TokenKind.tok_shift_right_assign)
    ∷ ("&=", TokenKind.tok_and_assign)
    ∷ ("|=", TokenKind.tok_or_assign)
    ∷ ("^=", TokenKind.tok_xor_assign)
    ∷ ("&", TokenKind.tok_amp)
    ∷ ("|", TokenKind.tok_pipe)
    ∷ ("^", TokenKind.tok_caret)
    ∷ ("~", TokenKind.tok_tilde)
    ∷ ("!", TokenKind.tok_bang)
    ∷ []

abbrev pub delimiter_kinds : List (String × TokenKind)
delimiter_kinds =
    ("(", TokenKind.tok_lparen)
    ∷ (")", TokenKind.tok_rparen)
    ∷ ("{", TokenKind.tok_lbrace)
    ∷ ("}", TokenKind.tok_rbrace)
    ∷ ("[", TokenKind.tok_lbracket)
    ∷ ("]", TokenKind.tok_rbracket)
    ∷ (";", TokenKind.tok_semicolon)
    ∷ (",", TokenKind.tok_comma)
    ∷ (":", TokenKind.tok_colon)
    ∷ ("::", TokenKind.tok_colon_colon)
    ∷ (".", TokenKind.tok_dot)
    ∷ ("...", TokenKind.tok_ellipsis)
    ∷ ("?", TokenKind.tok_question)
    ∷ ("#", TokenKind.tok_hash)
    ∷ ("##", TokenKind.tok_hash_hash)
    ∷ []
