-- ===== src/Optimizer/Wrapping.antt =====
-- The masks of optimizerSignedArithmetic and optimizerUnsignedArithmetic against the wrap-around of
-- the integer types.
use go_lcc.Base.{◌%◌, ◌^◌, ◌<◌, ◌≡◌, refl, sym, ap, ◌∙◌, arith}
use go_lcc.Base.Int.{ℤ}
use go_lcc.Words.{
  IntType, pattern_of, t_int8, t_int16, t_int32, t_int64, t_uint8, t_uint16, t_uint32, t_uint64,
}
use go_lcc.Words.Laws.{IsGoType, pattern_of-value_of}
use go_lcc.Vm.Number.{wrap}
use go_lcc.Optimizer.Numeric.{NumericKind, masked}

-- The integer type of a numeric kind.
pub data IsKindOf : NumericKind → IntType → Type 0 where
  int8 : IsKindOf NumericKind.int8 t_int8
  int16 : IsKindOf NumericKind.int16 t_int16
  int32 : IsKindOf NumericKind.int32 t_int32
  int64 : IsKindOf NumericKind.int64 t_int64
  uint8 : IsKindOf NumericKind.uint8 t_uint8
  uint16 : IsKindOf NumericKind.uint16 t_uint16
  uint32 : IsKindOf NumericKind.uint32 t_uint32
  uint64 : IsKindOf NumericKind.uint64 t_uint64

pub pattern_of-lt : (t : IntType) → IsGoType t → (z : ℤ) → pattern_of t.width z < 2 ^ t.width
unfolding pattern_of
pattern_of-lt _ IsGoType.int8 z = ground arith
pattern_of-lt _ IsGoType.int16 z = ground arith
pattern_of-lt _ IsGoType.int32 z = ground arith
pattern_of-lt _ IsGoType.int64 z = ground arith
pattern_of-lt _ IsGoType.uint8 z = ground arith
pattern_of-lt _ IsGoType.uint16 z = ground arith
pattern_of-lt _ IsGoType.uint32 z = ground arith
pattern_of-lt _ IsGoType.uint64 z = ground arith

pub pattern_of-wrap :
    (t : IntType) → IsGoType t → (z : ℤ) → pattern_of t.width (wrap t z) ≡ pattern_of t.width z
unfolding wrap
pattern_of-wrap t g z = pattern_of-value_of t g (pattern_of t.width z) (pattern_of-lt t g z)

pub narrow_pattern :
    (t : IntType) → IsGoType t → (z : ℤ) → pattern_of 64 z % 2 ^ t.width ≡ pattern_of t.width z
unfolding pattern_of
narrow_pattern _ IsGoType.int8 z = ground arith
narrow_pattern _ IsGoType.int16 z = ground arith
narrow_pattern _ IsGoType.int32 z = ground arith
narrow_pattern _ IsGoType.int64 z = ground arith
narrow_pattern _ IsGoType.uint8 z = ground arith
narrow_pattern _ IsGoType.uint16 z = ground arith
narrow_pattern _ IsGoType.uint32 z = ground arith
narrow_pattern _ IsGoType.uint64 z = ground arith

pub masked_lem :
    (t : IntType) → IsGoType t → (z : ℤ) → masked t.width z ≡ pattern_of 64 z % 2 ^ t.width
unfolding masked
masked_lem _ IsGoType.int8 z = refl
masked_lem _ IsGoType.int16 z = refl
masked_lem _ IsGoType.int32 z = refl
masked_lem _ IsGoType.int64 z = sym (narrow_pattern t_int64 IsGoType.int64 z)
masked_lem _ IsGoType.uint8 z = refl
masked_lem _ IsGoType.uint16 z = refl
masked_lem _ IsGoType.uint32 z = refl
masked_lem _ IsGoType.uint64 z = sym (narrow_pattern t_int64 IsGoType.int64 z)

-- A result that was wrapped to 64 bits first has the pattern of the exact one.
pub masked-wrap :
    (t : IntType)
    → IsGoType t
    → (z : ℤ) → masked t.width (wrap t_int64 z) ≡ pattern_of t.width (wrap t z)
masked-wrap t g z =
    masked_lem t g (wrap t_int64 z)
    ∙ ap (λ n. n % 2 ^ t.width) (pattern_of-wrap t_int64 IsGoType.int64 z)
    ∙ narrow_pattern t g z
    ∙ sym (pattern_of-wrap t g z)
