-- ===== src/Words/Bits.antt =====
-- Go's `&`, `|` and `^` on the low bits of their operands.
use Prim.Native.Nat.{
  min, max, differ, digits, bitwise, bit_and, bit_or, bit_xor, bit_and-bitwise, bit_or-bitwise,
  bit_xor-bitwise,
}
use native.Mathlib.Nat.{
  le_refl, one-le-pow, mul-add-mod_self_right, mod-lt, mod-eq_of_lt, div-add-mod', pow-suc,
}
use go_lcc.Base.{ℕ, zero, suc, ◌+◌, ◌*◌, ◌/◌, ◌%◌, ◌^◌, ◌≤◌, ◌<◌, ◌≡◌, refl, sym, ap, ◌∙◌, arith}

-- The recursion of the native operations takes fuel, of which the first number is enough: more makes no
-- difference. The bound N serves the induction.
module _ (rest : ℕ → ℕ) (op : ℕ → ℕ → ℕ) where
  enough : (N fuel x y : ℕ) → fuel ≤ N → x ≤ fuel → digits rest op fuel x y ≡ bitwise rest op x y
  enough N zero zero y within has = refl
  enough N zero (suc x) y within has = absurd (omega arith)
  enough N (suc fuel) zero y within has = refl
  enough zero (suc fuel) (suc x) y within has = absurd (omega arith)
  enough (suc N) (suc fuel) (suc x) y within has =
      let long = enough N fuel (suc x / 2) (y / 2) (omega arith) (omega arith) in
      let short = enough N x (suc x / 2) (y / 2) (omega arith) (omega arith) in
      ap (λ high. high * 2 + op (suc x % 2) (y % 2)) (long ∙ sym short)

  -- The lowest digit and the others, for an operation that treats 0 as any other number.
  lowest :
      ((y : ℕ) → rest y ≡ rest (y / 2) * 2 + op 0 (y % 2))
      → (x y : ℕ) → bitwise rest op x y ≡ bitwise rest op (x / 2) (y / 2) * 2 + op (x % 2) (y % 2)
  lowest at_zero zero y = at_zero y
  lowest at_zero (suc x) y =
      ap (λ high. high * 2 + op (suc x % 2) (y % 2))
        (enough x x (suc x / 2) (y / 2) (le_refl x) (omega arith))

pub bit_and-digit : (x y : ℕ) → bit_and x y ≡ bit_and (x / 2) (y / 2) * 2 + min (x % 2) (y % 2)
bit_and-digit x y = simp bit_and-bitwise (lowest (λ _. 0) min (λ w. omega arith) x y)

pub bit_or-digit : (x y : ℕ) → bit_or x y ≡ bit_or (x / 2) (y / 2) * 2 + max (x % 2) (y % 2)
bit_or-digit x y = simp bit_or-bitwise (lowest (λ w. w) max (λ w. omega arith) x y)

pub bit_xor-digit : (x y : ℕ) → bit_xor x y ≡ bit_xor (x / 2) (y / 2) * 2 + differ (x % 2) (y % 2)
bit_xor-digit x y = simp bit_xor-bitwise (lowest (λ w. w) differ (λ w. omega arith) x y)

double_mod : (a m : ℕ) → 1 ≤ m → a % (m * 2) ≡ (a / 2 % m) * 2 + a % 2
double_mod a m h =
    let low = a / 2 % m * 2 + a % 2 in
    let parts : a ≡ a / 2 / m * (m * 2) + low = omega (arith, div-add-mod' (a / 2) m) in
    ap (λ x. x % (m * 2)) parts
    ∙ mul-add-mod_self_right (a / 2 / m) (m * 2) low
    ∙ mod-eq_of_lt (omega (arith, mod-lt (a / 2) {m = m} h))

-- An operation by digits keeps the low bits apart from the others.
module _ (f g : ℕ → ℕ → ℕ)
    (by_digit : (a b : ℕ) → f a b ≡ f (a / 2) (b / 2) * 2 + g (a % 2) (b % 2))
    (is_digit : (a b : ℕ) → a < 2 → b < 2 → g a b < 2) (zeros : g 0 0 ≡ 0) where
  low_bits : (k a b : ℕ) → f a b % 2 ^ k ≡ f (a % 2 ^ k) (b % 2 ^ k)
  low_bits zero a b =
      let zero_digit : f 0 0 ≡ 0 = omega (arith, by_digit 0 0, zeros) in
      let ea : a % 2 ^ 0 ≡ 0 = omega arith in
      let eb : b % 2 ^ 0 ≡ 0 = omega arith in rw (ea, eb, zero_digit) (omega arith)
  low_bits (suc k) a b =
      let m = 2 ^ k in
      let x = a % (m * 2) in
      let y = b % (m * 2) in
      let positive = one-le-pow k 2 (omega arith) in
      let da = double_mod a m positive in
      let db = double_mod b m positive in
      let xh : x / 2 ≡ a / 2 % m = omega (arith, da) in
      let yh : y / 2 ≡ b / 2 % m = omega (arith, db) in
      let xl : x % 2 ≡ a % 2 = omega (arith, da) in
      let yl : y % 2 ≡ b % 2 = omega (arith, db) in
      let digit = is_digit (a % 2) (b % 2) (omega arith) (omega arith) in
      let half : f a b / 2 ≡ f (a / 2) (b / 2) = omega (arith, by_digit a b, digit) in
      let low : f a b % 2 ≡ g (a % 2) (b % 2) = omega (arith, by_digit a b, digit) in
      let left : f a b % (m * 2) ≡ f (a / 2 % m) (b / 2 % m) * 2 + g (a % 2) (b % 2) =
        double_mod (f a b) m positive
        ∙ ap (λ n. n % m * 2 + f a b % 2) half
        ∙ ap (λ n. n * 2 + f a b % 2) (low_bits k (a / 2) (b / 2))
        ∙ ap (λ n. f (a / 2 % m) (b / 2 % m) * 2 + n) low in
      let right : f x y ≡ f (a / 2 % m) (b / 2 % m) * 2 + g (a % 2) (b % 2) =
        by_digit x y
        ∙ ap (λ n. f n (y / 2) * 2 + g (x % 2) (y % 2)) xh
        ∙ ap (λ n. f (a / 2 % m) n * 2 + g (x % 2) (y % 2)) yh
        ∙ ap (λ n. f (a / 2 % m) (b / 2 % m) * 2 + g n (y % 2)) xl
        ∙ ap (λ n. f (a / 2 % m) (b / 2 % m) * 2 + g (a % 2) n) yl in
      rw (pow-suc 2 k) (left ∙ sym right)

differ-lt : (a b : ℕ) → a < 2 → b < 2 → differ a b < 2
differ-lt zero b ha hb = hb
differ-lt (suc a) zero ha hb = ha
differ-lt (suc a) (suc b) ha hb = differ-lt a b (omega arith) (omega arith)

-- The low k bits of a bitwise operation are its result on the low k bits.
pub bit_and-low : (k a b : ℕ) → bit_and a b % 2 ^ k ≡ bit_and (a % 2 ^ k) (b % 2 ^ k)
bit_and-low = low_bits bit_and min bit_and-digit (λ a b ha hb. omega arith) refl

pub bit_or-low : (k a b : ℕ) → bit_or a b % 2 ^ k ≡ bit_or (a % 2 ^ k) (b % 2 ^ k)
bit_or-low = low_bits bit_or max bit_or-digit (λ a b ha hb. omega arith) refl

pub bit_xor-low : (k a b : ℕ) → bit_xor a b % 2 ^ k ≡ bit_xor (a % 2 ^ k) (b % 2 ^ k)
bit_xor-low = low_bits bit_xor differ bit_xor-digit differ-lt refl
