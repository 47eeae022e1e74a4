-- ===== src/Words.antt =====
-- Go's conversions between a w-bit pattern and the integer of the same type: `intN(x)` of an
-- unsigned value, and `uintN(z)` or `intN(z)` of an integer, which keep the low w bits.
pub mod Laws
pub mod Bits
use go_lcc.Base.{ℕ, ◌-◌, ◌%◌, ◌^◌, Bool, true, false, ltb, if◌then◌else◌}
use go_lcc.Base.Int.{ℤ, pos, negsuc}

-- The integer types of the language, by their width in bits.
pub record IntType : Type 0 where
  pub width : ℕ
  pub is_signed : Bool

-- The integer that a w-bit pattern stands for in two's complement.
unfoldable pub signed : ℕ → ℕ → ℤ
signed w bits = if ltb bits (2 ^ (w - 1)) then pos bits else negsuc (2 ^ w - 1 - bits)

-- The low w bits of an integer.
unfoldable pub pattern_of : ℕ → ℤ → ℕ
pattern_of w (pos n) = n % 2 ^ w
pattern_of w (negsuc n) = 2 ^ w - 1 - n % 2 ^ w

-- The value of a pattern in an integer type.
unfoldable pub value_of : IntType → ℕ → ℤ
unfolding signed
value_of t bits = if t.is_signed then signed t.width bits else pos bits

abbrev pub t_int8 : IntType
t_int8 = record { width = 8; is_signed = true }

abbrev pub t_int16 : IntType
t_int16 = record { width = 16; is_signed = true }

abbrev pub t_int32 : IntType
t_int32 = record { width = 32; is_signed = true }

abbrev pub t_int64 : IntType
t_int64 = record { width = 64; is_signed = true }

abbrev pub t_uint8 : IntType
t_uint8 = record { width = 8; is_signed = false }

abbrev pub t_uint16 : IntType
t_uint16 = record { width = 16; is_signed = false }

abbrev pub t_uint32 : IntType
t_uint32 = record { width = 32; is_signed = false }

abbrev pub t_uint64 : IntType
t_uint64 = record { width = 64; is_signed = false }
