-- ===== src/Base/Lists.antt =====
-- Lists measured and indexed by native numbers, and the copy of a run of elements into a list.
use Prim.Native.Nat.{ℕ, zero, suc, ◌+◌, ◌-◌, ◌≤◌, ◌<◌, min}
use mathlib.Core.Path.{◌≡◌, refl, ap}
use mathlib.Core.Option.{Option, none, some}
use mathlib.Core.List.{List, [], ◌∷◌, ◌++◌}
use native.Mathlib.Omega.{arith}

module _ {ℓ} {A : Type ℓ} where
  abbrev pub length : List A → ℕ
  length [] = 0
  length (x ∷ xs) = suc (length xs)

  abbrev pub get_elem? : List A → ℕ → Option A
  get_elem? [] i = none
  get_elem? (x ∷ xs) zero = some x
  get_elem? (x ∷ xs) (suc i) = get_elem? xs i

  abbrev pub get_or : List A → ℕ → A → A
  get_or [] i d = d
  get_or (x ∷ xs) zero d = x
  get_or (x ∷ xs) (suc i) d = get_or xs i d

  -- A write out of bounds changes nothing.
  abbrev pub set : List A → ℕ → A → List A
  set [] i v = []
  set (x ∷ xs) zero v = v ∷ xs
  set (x ∷ xs) (suc i) v = x ∷ set xs i v

  abbrev pub take : ℕ → List A → List A
  take zero xs = []
  take (suc n) [] = []
  take (suc n) (x ∷ xs) = x ∷ take n xs

  abbrev pub drop : ℕ → List A → List A
  drop zero xs = xs
  drop (suc n) [] = []
  drop (suc n) (x ∷ xs) = drop n xs

  abbrev pub replicate : ℕ → A → List A
  replicate zero a = []
  replicate (suc n) a = a ∷ replicate n a

module _ {ℓ} {A : Type ℓ} where
  -- xs[i : i + n]
  abbrev pub slice : List A → ℕ → ℕ → List A
  slice xs i n = take n (drop i xs)

  -- Writes ys over xs from position i on. What would fall behind the end of xs is dropped.
  abbrev pub overwrite : List A → List A → List A
  overwrite xs [] = xs
  overwrite [] (y ∷ ys) = []
  overwrite (x ∷ xs) (y ∷ ys) = y ∷ overwrite xs ys

  abbrev pub splice : List A → ℕ → List A → List A
  splice xs zero ys = overwrite xs ys
  splice [] (suc i) ys = []
  splice (x ∷ xs) (suc i) ys = x ∷ splice xs i ys

  pub length-append : (xs ys : List A) → length (xs ++ ys) ≡ length xs + length ys
  length-append [] ys = omega arith
  length-append (x ∷ xs) ys = omega (arith, length-append xs ys)

  pub length-set : (xs : List A) (i : ℕ) (v : A) → length (set xs i v) ≡ length xs
  length-set [] i v = refl
  length-set (x ∷ xs) zero v = refl
  length-set (x ∷ xs) (suc i) v = ap suc (length-set xs i v)

  pub length-take : (n : ℕ) (xs : List A) → length (take n xs) ≡ min n (length xs)
  length-take zero xs = omega arith
  length-take (suc n) [] = omega arith
  length-take (suc n) (x ∷ xs) = omega (arith, length-take n xs)

  pub length-drop : (n : ℕ) (xs : List A) → length (drop n xs) ≡ length xs - n
  length-drop zero xs = omega arith
  length-drop (suc n) [] = omega arith
  length-drop (suc n) (x ∷ xs) = omega (arith, length-drop n xs)

  pub length-replicate : (n : ℕ) (a : A) → length (replicate n a) ≡ n
  length-replicate zero a = refl
  length-replicate (suc n) a = ap suc (length-replicate n a)

  pub get_elem?-some : (xs : List A) (i : ℕ) → i < length xs → (x : A) × (get_elem? xs i ≡ some x)
  get_elem?-some [] i h = elim h [ ]
  get_elem?-some (x ∷ xs) zero h = (x, refl)
  get_elem?-some (x ∷ xs) (suc i) h = get_elem?-some xs i (omega arith)

module _ {ℓ} {A : Type ℓ} where
  pub length-overwrite : (xs ys : List A) → length (overwrite xs ys) ≡ length xs
  length-overwrite xs [] = refl
  length-overwrite [] (y ∷ ys) = refl
  length-overwrite (x ∷ xs) (y ∷ ys) = ap suc (length-overwrite xs ys)

  pub length-splice : (xs : List A) (i : ℕ) (ys : List A) → length (splice xs i ys) ≡ length xs
  length-splice xs zero ys = length-overwrite xs ys
  length-splice [] (suc i) ys = refl
  length-splice (x ∷ xs) (suc i) ys = ap suc (length-splice xs i ys)

  pub take-overwrite :
      (xs ys : List A) → length ys ≤ length xs → take (length ys) (overwrite xs ys) ≡ ys
  take-overwrite xs [] h = refl
  take-overwrite [] (y ∷ ys) h = absurd (omega arith)
  take-overwrite (x ∷ xs) (y ∷ ys) h = ap (λ l. y ∷ l) (take-overwrite xs ys (omega arith))

  -- What was written is read back.
  pub slice-splice :
      (xs : List A) (i : ℕ) (ys : List A)
      → i + length ys ≤ length xs
      → slice (splice xs i ys) i (length ys) ≡ ys
  slice-splice xs zero ys h = take-overwrite xs ys (omega arith)
  slice-splice [] (suc i) [] h = refl
  slice-splice [] (suc i) (y ∷ ys) h = absurd (omega arith)
  slice-splice (x ∷ xs) (suc i) ys h = slice-splice xs i ys (omega arith)

  -- What stands in front of the written run stays.
  pub take-splice :
      (xs : List A) (i : ℕ) (ys : List A) (n : ℕ) → n ≤ i → take n (splice xs i ys) ≡ take n xs
  take-splice xs i ys zero h = refl
  take-splice xs zero ys (suc n) h = absurd (omega arith)
  take-splice [] (suc i) ys (suc n) h = refl
  take-splice (x ∷ xs) (suc i) ys (suc n) h = ap (λ l. x ∷ l) (take-splice xs i ys n (omega arith))

  drop-overwrite : (xs ys : List A) (n : ℕ) → length ys ≤ n → drop n (overwrite xs ys) ≡ drop n xs
  drop-overwrite xs [] n h = refl
  drop-overwrite [] (y ∷ ys) n h = refl
  drop-overwrite (x ∷ xs) (y ∷ ys) zero h = absurd (omega arith)
  drop-overwrite (x ∷ xs) (y ∷ ys) (suc n) h = drop-overwrite xs ys n (omega arith)

  -- What stands behind it stays.
  pub drop-splice :
      (xs : List A) (i : ℕ) (ys : List A) (n : ℕ)
      → i + length ys ≤ n
      → drop n (splice xs i ys) ≡ drop n xs
  drop-splice xs zero ys n h = drop-overwrite xs ys n (omega arith)
  drop-splice [] (suc i) ys n h = refl
  drop-splice (x ∷ xs) (suc i) ys zero h = absurd (omega arith)
  drop-splice (x ∷ xs) (suc i) ys (suc n) h = drop-splice xs i ys n (omega arith)

  -- A run that is read in front of the written one is the old one.
  pub slice-splice_before :
      (xs : List A) (i : ℕ) (ys : List A) (j n : ℕ)
      → j + n ≤ i
      → slice (splice xs i ys) j n ≡ slice xs j n
  slice-splice_before xs zero ys zero zero h = refl
  slice-splice_before xs zero ys zero (suc n) h = absurd (omega arith)
  slice-splice_before xs zero ys (suc j) n h = absurd (omega arith)
  slice-splice_before [] (suc i) ys j n h = refl
  slice-splice_before (x ∷ xs) (suc i) ys zero n h = take-splice (x ∷ xs) (suc i) ys n (omega arith)
  slice-splice_before (x ∷ xs) (suc i) ys (suc j) n h =
      slice-splice_before xs i ys j n (omega arith)

abbrev pub All : {A : Type 0} → (A → Type 0) → List A → Type 0
All P [] = Unit
All P (x ∷ xs) = P x × All P xs

pub All-append :
    {A : Type 0} (P : A → Type 0) (xs ys : List A) → All P (xs ++ ys) → All P xs × All P ys
All-append P [] ys h = (tt, h)
All-append P (x ∷ xs) ys (h, hs) = let (l, r) = All-append P xs ys hs in ((h, l), r)
