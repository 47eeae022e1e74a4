-- ===== src/Bytes/Laws.antt =====
-- The bytes of a number and the number of some bytes.
use native.Mathlib.Nat.{pow-suc}
use mathlib.Core.Path.{ap₂, ◌∙◌}
use go_lcc.Base.{
  ℕ, zero, suc, ◌+◌, ◌/◌, ◌^◌, ◌≤◌, ◌<◌, ◌≡◌, refl, ap, List, [], ◌∷◌, arith, length, slice, splice,
  length-splice, slice-splice,
}
use go_lcc.Status.{ok}
use go_lcc.Bytes.{le_bytes, le_value, le_read, le_put}

pub length-le_bytes : (n v : ℕ) → length (le_bytes n v) ≡ n
unfolding le_bytes
length-le_bytes zero v = refl
length-le_bytes (suc n) v = ap suc (length-le_bytes n (v / 256))

-- Reading back the bytes of a number gives the number.
pub le_value-le_bytes : (n v : ℕ) → v < 256 ^ n → le_value (le_bytes n v) ≡ v
unfolding le_bytes le_value
le_value-le_bytes zero v h = omega arith
le_value-le_bytes (suc n) v h =
    omega (arith, le_value-le_bytes n (v / 256) (omega (arith, pow-suc 256 n)))

abbrev pub AllBytes : List ℕ → Type 0
AllBytes [] = Unit
AllBytes (b ∷ bs) = (b < 256) × AllBytes bs

pub le_bytes-AllBytes : (n v : ℕ) → AllBytes (le_bytes n v)
unfolding le_bytes
le_bytes-AllBytes zero v = tt
le_bytes-AllBytes (suc n) v = (omega arith, le_bytes-AllBytes n (v / 256))

pub le_bytes-le_value : (bs : List ℕ) → AllBytes bs → le_bytes (length bs) (le_value bs) ≡ bs
unfolding le_bytes le_value
le_bytes-le_value [] h = refl
le_bytes-le_value (b ∷ bs) (hb, hs) =
    ap₂ ◌∷◌ (omega arith) (ap (le_bytes (length bs)) (omega arith) ∙ le_bytes-le_value bs hs)

pub le_read-eq-ok :
    (n : ℕ) (bytes : List ℕ) (off : ℕ)
    → off + n ≤ length bytes
    → le_read n bytes off ≡ ok (le_value (slice bytes off n))
unfolding le_read
le_read-eq-ok n bytes off h = ground arith

pub le_put-eq-ok :
    (n : ℕ) (bytes : List ℕ) (off v : ℕ)
    → off + n ≤ length bytes
    → le_put n bytes off v ≡ ok (splice bytes off (le_bytes n v))
unfolding le_put
le_put-eq-ok n bytes off v h = ground arith

slice-splice_at :
    (n : ℕ) (bytes : List ℕ) (off : ℕ) (ys : List ℕ)
    → length ys ≡ n
    → off + n ≤ length bytes
    → slice (splice bytes off ys) off n ≡ ys
slice-splice_at n bytes off ys e h = rw (← e) (slice-splice bytes off ys (omega (arith, e)))

-- The number that was put at an offset is the number of the bytes there.
pub le_value-slice-splice :
    (n : ℕ) (bytes : List ℕ) (off v : ℕ)
    → off + n ≤ length bytes
    → v < 256 ^ n
    → le_value (slice (splice bytes off (le_bytes n v)) off n) ≡ v
le_value-slice-splice n bytes off v h hv =
    ap le_value (slice-splice_at n bytes off (le_bytes n v) (length-le_bytes n v) h)
    ∙ le_value-le_bytes n v hv

-- What was put at an offset is read back there.
pub le_read-splice :
    (n : ℕ) (bytes : List ℕ) (off v : ℕ)
    → off + n ≤ length bytes
    → v < 256 ^ n
    → le_read n (splice bytes off (le_bytes n v)) off ≡ ok v
le_read-splice n bytes off v h hv =
    le_read-eq-ok n _ off (omega (arith, length-splice bytes off (le_bytes n v)))
    ∙ ap ok (le_value-slice-splice n bytes off v h hv)
