-- ===== src/Words/Laws.antt =====
-- Two's complement: patterns and values of Go's integer types.
use go_lcc.Base.{ℕ, ◌+◌, ◌-◌, ◌%◌, ◌^◌, ◌<◌, ◌≡◌, arith}
use go_lcc.Base.Int.{◌+ℤ◌, ◌-ℤ◌}
use go_lcc.Words.{
  IntType, signed, pattern_of, value_of, t_int8, t_int16, t_int32, t_int64, t_uint8, t_uint16,
  t_uint32, t_uint64,
}

-- The eight integer types.
pub data IsGoType : IntType → Type 0 where
  int8 : IsGoType t_int8
  int16 : IsGoType t_int16
  int32 : IsGoType t_int32
  int64 : IsGoType t_int64
  uint8 : IsGoType t_uint8
  uint16 : IsGoType t_uint16
  uint32 : IsGoType t_uint32
  uint64 : IsGoType t_uint64

-- A pattern is read back from its value.
pub pattern_of-value_of :
    (t : IntType) → IsGoType t → (a : ℕ) → a < 2 ^ t.width → pattern_of t.width (value_of t a) ≡ a
unfolding pattern_of value_of signed
pattern_of-value_of _ int8 a h = ground arith
pattern_of-value_of _ int16 a h = ground arith
pattern_of-value_of _ int32 a h = ground arith
pattern_of-value_of _ int64 a h = ground arith
pattern_of-value_of _ uint8 a h = ground arith
pattern_of-value_of _ uint16 a h = ground arith
pattern_of-value_of _ uint32 a h = ground arith
pattern_of-value_of _ uint64 a h = ground arith

pub pattern_of-add :
    (t : IntType)
    → IsGoType t
    → (a b : ℕ) → a < 2 ^ t.width
    → b < 2 ^ t.width
    → pattern_of t.width (value_of t a +ℤ value_of t b) ≡ (a + b) % 2 ^ t.width
unfolding pattern_of value_of signed ◌+ℤ◌
pattern_of-add _ int8 a b ha hb = ground arith
pattern_of-add _ int16 a b ha hb = ground arith
pattern_of-add _ int32 a b ha hb = ground arith
pattern_of-add _ int64 a b ha hb = ground arith
pattern_of-add _ uint8 a b ha hb = ground arith
pattern_of-add _ uint16 a b ha hb = ground arith
pattern_of-add _ uint32 a b ha hb = ground arith
pattern_of-add _ uint64 a b ha hb = ground arith

pub pattern_of-sub :
    (t : IntType)
    → IsGoType t
    → (a b : ℕ) → a < 2 ^ t.width
    → b < 2 ^ t.width
    → pattern_of t.width (value_of t a -ℤ value_of t b) ≡ (a + 2 ^ t.width - b) % 2 ^ t.width
unfolding pattern_of value_of signed ◌-ℤ◌
pattern_of-sub _ int8 a b ha hb = ground arith
pattern_of-sub _ int16 a b ha hb = ground arith
pattern_of-sub _ int32 a b ha hb = ground arith
pattern_of-sub _ int64 a b ha hb = ground arith
pattern_of-sub _ uint8 a b ha hb = ground arith
pattern_of-sub _ uint16 a b ha hb = ground arith
pattern_of-sub _ uint32 a b ha hb = ground arith
pattern_of-sub _ uint64 a b ha hb = ground arith
