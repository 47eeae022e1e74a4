-- ===== src/Lexer/Bounds.antt =====
-- Each part of Tokenize of cova/lex.go takes bytes that the source has.
use go_lcc.Base.{
  ℕ, zero, suc, ◌+◌, ◌≤◌, ◌≡◌, List, [], ◌∷◌, Bool, true, false, ◌&&◌, ◌||◌, Option, none, some,
  ◌==◌, if◌then◌else◌, length, length-drop, drop, Option-cases, inl, inr, arith,
}
use go_lcc.Outcome.{Outcome, done, failed, panic, Safe, Where}
use go_lcc.Lexer.Tokens.{GoText}
use go_lcc.Lexer.Scan.{
  LexError, or_fail, further, line_end, block_end, newline_width, ident_run, digit_run, some_digits,
  fraction, exponent, sign_width,
}
use go_lcc.Lexer.Progress.{Conforms, Any, or_fail-Safe}

pub Safe-Where :
    {A : Type 0} (P Q : A → Type 0) (m : Outcome LexError A)
    → Safe Any P m
    → ((a : A) → P a → Q a)
    → Where Q m
Safe-Where P Q (done a) h k = k a h
Safe-Where P Q (failed e) h k = tt
Safe-Where P Q panic h k = tt

pub or_fail-Where :
    {A : Type 0} (e : LexError) (o : Option A) → Where (λ a. o ≡ some a) (or_fail e o)
or_fail-Where e o =
    Safe-Where (λ a. o ≡ some a) (λ a. o ≡ some a) (or_fail e o) (or_fail-Safe e o) (λ a h. h)

pub line_end-le : (text : List ℕ) → line_end text ≤ length text
unfolding line_end
line_end-le [] = omega arith
line_end-le (b ∷ bs) = ground (arith, line_end-le bs)

pub newline_width-le : (char : ℕ) (text : List ℕ) → newline_width char text ≤ 1 + length text
unfolding newline_width
newline_width-le char [] = omega arith
newline_width-le char (c ∷ rest) = ground arith

-- What is taken of a text of n bytes.
abbrev pub Takes : ℕ → Option (ℕ × ℕ × ℕ) → Type 0
Takes n none = Unit
Takes n (some (taken, line, column)) = taken ≤ n

further-Takes : (k n : ℕ) (o : Option (ℕ × ℕ × ℕ)) → Takes n o → Takes (k + n) (further k o)
further-Takes k n none h = tt
further-Takes k n (some (taken, line, column)) h = omega (arith, h)

Takes-if :
    (n : ℕ) (b : Bool) (o p : Option (ℕ × ℕ × ℕ))
    → Takes n o
    → Takes n p
    → Takes n (if b then o else p)
Takes-if n true o p h k = h
Takes-if n false o p h k = k

Takes-le : (n m : ℕ) (o : Option (ℕ × ℕ × ℕ)) → n ≤ m → Takes n o → Takes m o
Takes-le n m none le h = tt
Takes-le n m (some (taken, line, column)) le h = omega (arith, le, h)

pub block_end-Takes :
    (text : List ℕ) (line column : ℕ) → Takes (length text) (block_end text line column)
unfolding block_end
block_end-Takes [] line column = tt
block_end-Takes (b ∷ []) line column = tt
block_end-Takes (b ∷ c ∷ rest) line column =
    let n = length (b ∷ c ∷ rest) in
    let longer = λ (k m : ℕ) (o : Option (ℕ × ℕ × ℕ)) (le : k + m ≤ n) (h : Takes m o).
      Takes-le (k + m) n (further k o) le (further-Takes k m o h) in
    Takes-if n ((b == b'*') && (c == b'/')) _ _ (omega arith) (
      Takes-if n ((b == b'\n') || (b == b'\r')) _ _
        (Takes-if n ((b == b'\r') && (c == b'\n')) _ _
          (longer 2 (length rest) (block_end rest (line + 1) 1) (omega arith)
            (block_end-Takes rest (line + 1) 1))
          (longer 1 (length (c ∷ rest)) (block_end (c ∷ rest) (line + 1) 1) (omega arith)
            (block_end-Takes (c ∷ rest) (line + 1) 1)))
        (longer 1 (length (c ∷ rest)) (block_end (c ∷ rest) line (column + 1)) (omega arith)
          (block_end-Takes (c ∷ rest) line (column + 1))))

module _ (t : GoText) where
  pub digit_run-le : (text : List ℕ) → digit_run t text ≤ length text
  unfolding digit_run
  digit_run-le [] = omega arith
  digit_run-le (b ∷ bs) = ground (arith, digit_run-le bs)

  some_digits-le : (text : List ℕ) (n : ℕ) → some_digits t text ≡ some n → n ≤ length text
  unfolding some_digits
  some_digits-le [] n h = ground arith
  some_digits-le (b ∷ bs) n h = ground (arith, digit_run-le (b ∷ bs))

  pub fraction-le : (text : List ℕ) (n : ℕ) → fraction t text ≡ some n → n ≤ length text
  unfolding fraction
  fraction-le [] n h = ground arith
  fraction-le (b ∷ bs) n h = elim (Option-cases (some_digits t bs)) [
    | inl e ↦ ground arith
    | inr (k, e) ↦ ground (arith, some_digits-le bs k e)
  ]

  sign_width-le : (text : List ℕ) → sign_width t text ≤ length text
  sign_width-le [] = omega arith
  sign_width-le (b ∷ bs) = ground arith

  pub exponent-le : (text : List ℕ) (n : ℕ) → exponent t text ≡ some n → n ≤ length text
  unfolding exponent
  exponent-le [] n h = ground arith
  exponent-le (b ∷ bs) n h = elim (Option-cases (some_digits t (drop (sign_width t bs) bs))) [
    | inl e ↦ ground arith
    | inr (k, e) ↦ ground (
      arith,
      some_digits-le (drop (sign_width t bs) bs) k e,
      length-drop (sign_width t bs) bs,
      sign_width-le bs,
    )
  ]

  pub ident_run-le :
      Conforms t → (fuel : ℕ) (text : List ℕ) → (ident_run t fuel text).0 ≤ length text
  unfolding ident_run
  ident_run-le c zero text = omega arith
  ident_run-le c (suc fuel) [] = omega arith
  ident_run-le c (suc fuel) (b ∷ bs) =
      let width = (t.decode (b ∷ bs)).1 in
      ground (
        arith,
        c.width_le b bs,
        length-drop width (b ∷ bs),
        ident_run-le c fuel (drop width (b ∷ bs)),
      )
