-- ===== src/Lexer/Progress.antt =====
-- Each round of Tokenize of cova/lex.go takes a byte of the source.
use go_lcc.Base.{
  ℕ, suc, ◌+◌, ◌≤◌, ◌≡◌, refl, List, [], ◌∷◌, true, Option, none, some, ◌⊎◌, inl, inr,
  if◌then◌else◌, length, take, drop, Bool-cases, arith,
}
use go_lcc.Outcome.{Outcome, Safe, Safe->>=, Safe-map, ◌>>=◌}
use go_lcc.Lexer.Tokens.{GoText, TokenKind, Token}
use go_lcc.Lexer.Scan.{
  LexError, digit_run, fraction, exponent, has_float_mark, number_suffix, number_token, trim_suffix,
  finish_number, number_behind, tokenize_numeric_literal, or_fail,
}

-- What Go documents: a character of a text has a byte at
-- least and none behind the text, a character that is a digit begins
-- with its own byte or with one outside ASCII, and an empty text is no integer.
pub record Conforms (t : GoText) : Type 0 where
  pub width : (b : ℕ) (bs : List ℕ) → 1 ≤ (t.decode (b ∷ bs)).1
  pub digit_start :
      (b : ℕ) (bs : List ℕ)
      → t.is_digit (t.decode (b ∷ bs)).0 ≡ true
      → (t.is_digit b ≡ true) ⊎ (128 ≤ b)
  pub width_le : (b : ℕ) (bs : List ℕ) → (t.decode (b ∷ bs)).1 ≤ suc (length bs)
  pub no_number : t.parse_int [] ≡ none

abbrev pub Any : LexError → Type 0
Any e = Unit

pub or_fail-Safe :
    {A : Type 0} (e : LexError) (o : Option A) → Safe Any (λ a. o ≡ some a) (or_fail e o)
or_fail-Safe e none = tt
or_fail-Safe e (some a) = refl

number_suffix-le : (kind : TokenKind) (n : ℕ) (text : List ℕ) → n ≤ (number_suffix kind n text).1
unfolding number_suffix
number_suffix-le kind n [] = omega arith
number_suffix-le kind n (b ∷ bs) = ground arith

module _ (t : GoText) (line column offset : ℕ) where
  pub number_token-length :
      (kind : TokenKind) (n : ℕ) (value : List ℕ)
      → Safe Any (λ token. token.length ≡ n) (number_token t line column offset kind n value)
  unfolding number_token
  number_token-length TokenKind.tok_integer n value =
      Safe->>= Any (λ a. t.parse_int value ≡ some a) (λ token. token.length ≡ n)
        (or_fail (LexError.invalid_integer_literal line column) (t.parse_int value)) _
        (or_fail-Safe _ (t.parse_int value)) (λ a e. refl)
  number_token-length kind n value =
      let text = trim_suffix b'D' (trim_suffix b'd' (trim_suffix b'F' (trim_suffix b'f' value))) in
      Safe->>= Any (λ a. t.parse_float text ≡ some a) (λ token. token.length ≡ n)
        (or_fail (LexError.invalid_float_literal line column) (t.parse_float text)) _
        (or_fail-Safe _ (t.parse_float text)) (λ a e. refl)

  number_token-none :
      t.parse_int [] ≡ none
      → Safe Any
          (λ token. 1 ≤ token.length)
          (number_token t line column offset TokenKind.tok_integer 0 [])
  unfolding number_token
  number_token-none h = rw h tt

  -- A byte outside ASCII begins no number.
  fraction_none : (b : ℕ) (bs : List ℕ) → 128 ≤ b → fraction t (b ∷ bs) ≡ some 0
  unfolding fraction
  fraction_none b bs h = ground arith

  exponent_none : (b : ℕ) (bs : List ℕ) → 128 ≤ b → exponent t (b ∷ bs) ≡ some 0
  unfolding exponent
  exponent_none b bs h = ground arith

  number_suffix_none :
      (b : ℕ) (bs : List ℕ)
      → 128 ≤ b
      → number_suffix TokenKind.tok_integer 0 (b ∷ bs) ≡ (TokenKind.tok_integer, 0)
  unfolding number_suffix
  number_suffix_none b bs h = ground arith

  at_least :
      (n : ℕ) (m : Outcome LexError Token)
      → 1 ≤ n
      → Safe Any (λ token. token.length ≡ n) m
      → Safe Any (λ token. 1 ≤ token.length) m
  at_least n m h k =
      Safe-map Any (λ token. token.length ≡ n) (λ token. 1 ≤ token.length) m k
        (λ token e. omega (arith, e, h))

  finish_number-Progress :
      (text : List ℕ) (digits : ℕ)
      → 1 ≤ digits
      → Safe Any (λ token. 1 ≤ token.length) (finish_number t line column offset text digits)
  unfolding finish_number
  finish_number-Progress text digits h =
      let marked =
        if has_float_mark (take digits text)
        then TokenKind.tok_float32
        else TokenKind.tok_integer in
      let suffixed = number_suffix marked digits (drop digits text) in
      at_least suffixed.1
        (number_token t line column offset suffixed.0 suffixed.1 (take suffixed.1 text))
        (omega (arith, h, number_suffix-le marked digits (drop digits text)))
        (number_token-length suffixed.0 suffixed.1 (take suffixed.1 text))

  number_behind-Progress :
      (whole : ℕ) (text : List ℕ)
      → 1 ≤ whole
      → Safe Any (λ token. 1 ≤ token.length) (number_behind t line column offset whole text)
  unfolding number_behind
  number_behind-Progress whole text h =
      let R = λ (token : Token). 1 ≤ token.length in
      Safe->>= Any (λ n. fraction t (drop whole text) ≡ some n) R
        (or_fail (LexError.invalid_numeric_literal line column) (fraction t (drop whole text))) _
        (or_fail-Safe _ (fraction t (drop whole text)))
        λ n e.
          Safe->>= Any (λ m. exponent t (drop (whole + n) text) ≡ some m) R
            (or_fail (LexError.invalid_numeric_literal line column)
              (exponent t (drop (whole + n) text)))
            _ (or_fail-Safe _ (exponent t (drop (whole + n) text)))
            (λ m e'. finish_number-Progress text (whole + n + m) (omega (arith, h)))

  no_digits-Progress :
      (b : ℕ) (bs : List ℕ)
      → t.parse_int [] ≡ none
      → 128 ≤ b
      → Safe Any (λ token. 1 ≤ token.length) (number_behind t line column offset 0 (b ∷ bs))
  unfolding number_behind finish_number has_float_mark ◌>>=◌
  no_digits-Progress b bs h high =
      rw (fraction_none b bs high, exponent_none b bs high, number_suffix_none b bs high)
        (number_token-none h)

  pub number-Progress :
      (b : ℕ) (bs : List ℕ)
      → t.parse_int [] ≡ none
      → (t.is_digit b ≡ true) ⊎ (128 ≤ b)
      → Safe Any
          (λ token. 1 ≤ token.length)
          (tokenize_numeric_literal t line column offset (b ∷ bs))
  unfolding tokenize_numeric_literal digit_run
  number-Progress b bs h (inl digit) =
      rw digit (number_behind-Progress (suc (digit_run t bs)) (b ∷ bs) (omega arith))
  number-Progress b bs h (inr high) = elim (Bool-cases (t.is_digit b)) [
    | inl e ↦ rw e (number_behind-Progress (suc (digit_run t bs)) (b ∷ bs) (omega arith))
    | inr e ↦ rw e (no_digits-Progress b bs h high)
  ]
