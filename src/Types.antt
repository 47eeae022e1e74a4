-- ===== src/Types.antt =====
-- Type and TypeKind of cova/types.go: the types of the language, their tests, and the value kinds
-- that they have at run time. A `*Type` that may be nil is an option.
use Prim.Native.String.{String}
use go_lcc.Names.{same_name}
use go_lcc.Base.{
  ℕ, ◌==◌, Bool, true, false, ◌&&◌, ◌||◌, not, Option, none, some, if◌then◌else◌, leb,
}
use go_lcc.Kinds.{ValueKind}

pub data TypeKind : Type 0 where
  invalid void bool byte int8 int16 int32 int64 uint8 uint16 uint32 uint64 float32 float64 pointer
        string :
      TypeKind

-- The number of a kind.
unfoldable pub kind_code : TypeKind → ℕ
kind_code TypeKind.invalid = 0
kind_code TypeKind.void = 1
kind_code TypeKind.bool = 2
kind_code TypeKind.byte = 3
kind_code TypeKind.int8 = 4
kind_code TypeKind.int16 = 5
kind_code TypeKind.int32 = 6
kind_code TypeKind.int64 = 7
kind_code TypeKind.uint8 = 8
kind_code TypeKind.uint16 = 9
kind_code TypeKind.uint32 = 10
kind_code TypeKind.uint64 = 11
kind_code TypeKind.float32 = 12
kind_code TypeKind.float64 = 13
kind_code TypeKind.pointer = 14
kind_code TypeKind.string = 15

-- left == right, on kinds
abbrev pub same_kind : TypeKind → TypeKind → Bool
same_kind a b = kind_code a == kind_code b

-- The fields of a Type but Base. `address` is the object's identity: two pointers to types are equal
-- when their addresses are.
pub record TypeInfo : Type 0 where
  pub address : ℕ
  pub kind : TypeKind
  pub name : String
  pub size : ℕ
  pub is_const : Bool

-- `plain` has no Base.
pub data LangType : Type 0 where
  plain : TypeInfo → LangType
  over : TypeInfo → LangType → LangType

unfoldable pub info : LangType → TypeInfo
info (plain i) = i
info (over i b) = i

abbrev pub kind : LangType → TypeKind
unfolding info
kind typ = (info typ).kind

abbrev named : ℕ → TypeKind → String → ℕ → LangType
named a k n s = plain record { address = a; kind = k; name = n; size = s; is_const = false }

abbrev pub void_type : LangType
void_type = named 1 TypeKind.void "void" 0

abbrev pub bool_type : LangType
bool_type = named 2 TypeKind.bool "bool" 1

abbrev pub byte_type : LangType
byte_type = named 3 TypeKind.byte "byte" 1

abbrev pub int8_type : LangType
int8_type = named 4 TypeKind.int8 "int8" 1

abbrev pub int16_type : LangType
int16_type = named 5 TypeKind.int16 "int16" 2

abbrev pub int32_type : LangType
int32_type = named 6 TypeKind.int32 "int32" 4

abbrev pub int64_type : LangType
int64_type = named 7 TypeKind.int64 "int64" 8

abbrev pub uint8_type : LangType
uint8_type = named 8 TypeKind.uint8 "uint8" 1

abbrev pub uint16_type : LangType
uint16_type = named 9 TypeKind.uint16 "uint16" 2

abbrev pub uint32_type : LangType
uint32_type = named 10 TypeKind.uint32 "uint32" 4

abbrev pub uint64_type : LangType
uint64_type = named 11 TypeKind.uint64 "uint64" 8

abbrev pub float32_type : LangType
float32_type = named 12 TypeKind.float32 "float32" 4

abbrev pub float64_type : LangType
float64_type = named 13 TypeKind.float64 "float64" 8

abbrev pub string_type : LangType
string_type =
    over
      record { address = 14; kind = TypeKind.string; name = "string"; size = 4; is_const = false }
      uint8_type

-- Alignment
unfoldable pub alignment : Option LangType → ℕ
unfolding kind_code info
alignment none = 1
alignment (some typ) =
    if same_kind (kind typ) TypeKind.void
    then 1
    else if same_kind (kind typ) TypeKind.pointer || same_kind (kind typ) TypeKind.string
    then 4
    else if leb (info typ).size 1
    then 1
    else if leb 8 (info typ).size
    then 8
    else (info typ).size

-- QualifiedType; `address` is that of the clone.
unfoldable pub qualified_type : ℕ → Option LangType → Bool → Option LangType
qualified_type address none is_const = none
qualified_type address (some base) false = some base
qualified_type address (some (plain i)) true = some (
    plain
      record { address = address; kind = i.kind; name = i.name; size = i.size; is_const = true })
qualified_type address (some (over i base)) true = some (
    over record { address = address; kind = i.kind; name = i.name; size = i.size; is_const = true }
      base)

abbrev pub is_signed_kind : TypeKind → Bool
is_signed_kind TypeKind.int8 = true
is_signed_kind TypeKind.int16 = true
is_signed_kind TypeKind.int32 = true
is_signed_kind TypeKind.int64 = true
is_signed_kind _ = false

abbrev pub is_unsigned_kind : TypeKind → Bool
is_unsigned_kind TypeKind.byte = true
is_unsigned_kind TypeKind.uint8 = true
is_unsigned_kind TypeKind.uint16 = true
is_unsigned_kind TypeKind.uint32 = true
is_unsigned_kind TypeKind.uint64 = true
is_unsigned_kind _ = false

-- IsSignedInteger
unfoldable pub is_signed_integer : Option LangType → Bool
unfolding info
is_signed_integer none = false
is_signed_integer (some typ) = is_signed_kind (kind typ)

-- IsUnsignedInteger
unfoldable pub is_unsigned_integer : Option LangType → Bool
unfolding info
is_unsigned_integer none = false
is_unsigned_integer (some typ) = is_unsigned_kind (kind typ)

-- IsFloat
unfoldable pub is_float : Option LangType → Bool
unfolding info kind_code
is_float none = false
is_float (some typ) = same_kind (kind typ) TypeKind.float32 || same_kind (kind typ) TypeKind.float64

-- IsNumeric
unfoldable pub is_numeric : Option LangType → Bool
unfolding is_signed_integer is_unsigned_integer is_float
is_numeric typ = is_signed_integer typ || is_unsigned_integer typ || is_float typ

-- The test of IsSameType on all fields but Base.
unfoldable pub is_same_info : TypeInfo → TypeInfo → Bool
unfolding kind_code
is_same_info a b = not (
    not (same_kind a.kind b.kind)
    || not (same_name a.name b.name)
    || not (a.size == b.size)
    || not (if a.is_const then b.is_const else not b.is_const))

-- IsSameType, on types that are not nil.
unfoldable pub is_same_type : LangType → LangType → Bool
unfolding is_same_info
is_same_type (plain a) (plain b) = is_same_info a b
is_same_type (plain a) (over b base) = false
is_same_type (over a base) (plain b) = false
is_same_type (over a base) (over b base') = is_same_info a b && is_same_type base base'

-- typeToValueKind
unfoldable pub type_to_value_kind : TypeKind → Option ValueKind
type_to_value_kind TypeKind.invalid = none
type_to_value_kind TypeKind.void = some ValueKind.void
type_to_value_kind TypeKind.bool = some ValueKind.bool
type_to_value_kind TypeKind.byte = some ValueKind.byte
type_to_value_kind TypeKind.int8 = some ValueKind.int8
type_to_value_kind TypeKind.int16 = some ValueKind.int16
type_to_value_kind TypeKind.int32 = some ValueKind.int32
type_to_value_kind TypeKind.int64 = some ValueKind.int64
type_to_value_kind TypeKind.uint8 = some ValueKind.uint8
type_to_value_kind TypeKind.uint16 = some ValueKind.uint16
type_to_value_kind TypeKind.uint32 = some ValueKind.uint32
type_to_value_kind TypeKind.uint64 = some ValueKind.uint64
type_to_value_kind TypeKind.float32 = some ValueKind.float32
type_to_value_kind TypeKind.float64 = some ValueKind.float64
type_to_value_kind TypeKind.pointer = some ValueKind.address
type_to_value_kind TypeKind.string = some ValueKind.address

-- valueKindFromType
unfoldable pub value_kind_from_type : Option LangType → ValueKind
unfolding type_to_value_kind info
value_kind_from_type none = ValueKind.no_kind
value_kind_from_type (some typ) = elim (type_to_value_kind (kind typ)) [
  | some k ↦ k
  | none ↦ ValueKind.no_kind
]
