-- ===== src/Memory.antt =====
-- cova/program-memory.go, and the addresses of cova/segment-memory.go: the machine's memory is an
-- array of nine segments, of which an address names one and a byte in it.
pub mod Laws
mod Tests
use go_lcc.Base.{
  ℕ, ◌+◌, ◌*◌, ◌/◌, ◌%◌, ◌^◌, Bool, true, false, not, ◌||◌, leb, ◌==◌, if◌then◌else◌, u32,
}
use go_lcc.Base.Int.{ℤ}
use go_lcc.Status.{Result, ok, err, invalid_address_segment, read_only_memory}
use go_lcc.Exec.{Exec, pure, raise, lift, fail_if, ◌>>=◌, ◌>>◌}
use go_lcc.Words.{signed, pattern_of}
use go_lcc.Segment.{
  MemorySegment, new_memory_segment, read_uint8, read_uint16, read_uint32, read_uint64, write_uint8,
  write_uint16, write_uint32, write_uint64,
}

abbrev pub address_index_mask : ℕ
address_index_mask = 0x00ff_ffff

-- memorySegment
abbrev pub segment_invalid : ℕ
segment_invalid = 0

abbrev pub segment_frame : ℕ
segment_frame = 1

abbrev pub segment_bss : ℕ
segment_bss = 2

abbrev pub segment_extern : ℕ
segment_extern = 3

abbrev pub segment_const : ℕ
segment_const = 4

abbrev pub segment_data : ℕ
segment_data = 5

abbrev pub segment_stack : ℕ
segment_stack = 6

abbrev pub segment_count : ℕ
segment_count = 9

-- makeAddress; the shifted segment and the masked index share no bit.
unfoldable pub make_address : ℕ → ℕ → ℕ
make_address segment index = segment * 2 ^ 24 + index % 2 ^ 24

-- Address.Segment
unfoldable pub segment_of : ℕ → ℕ
segment_of address = address / 2 ^ 24 % 2 ^ 8

-- Address.Index
unfoldable pub index_of : ℕ → ℕ
index_of address = address % 2 ^ 24

pub record ProgramMemory : Type 0 where
  pub segment : ℕ → MemorySegment

unfoldable pub update : ProgramMemory → ℕ → MemorySegment → ProgramMemory
update m i s = record { segment = λ j. if j == i then s else m.segment j }

-- NewProgramMemory; the segments that it does not make are nil slices.
unfoldable pub new_program_memory : ℕ → ℕ → ℕ → ℕ → ℕ → ℕ → ProgramMemory
unfolding new_memory_segment
new_program_memory externs consts datas bss frame_capacity stack_capacity = record {
  segment = λ i.
      if i == segment_extern
      then new_memory_segment externs externs
      else if i == segment_const
      then new_memory_segment consts consts
      else if i == segment_data
      then new_memory_segment datas datas
      else if i == segment_bss
      then new_memory_segment bss bss
      else if i == segment_frame
      then new_memory_segment frame_capacity frame_capacity
      else if i == segment_stack
      then new_memory_segment 0 stack_capacity
      else new_memory_segment 0 0;
}

-- An operation of segment i, as one of the whole memory.
unfoldable pub on_segment : {A : Type 0} → ℕ → Exec MemorySegment A → Exec ProgramMemory A
unfolding update
on_segment i op m = let (r, s) = op (m.segment i) in (r, update m i s)

-- segmentForAddress: the segment's number in place of its pointer.
unfoldable pub segment_for_address : ℕ → Result ℕ
unfolding segment_of
segment_for_address address =
    if leb (segment_of address) segment_invalid || leb segment_count (segment_of address)
    then err invalid_address_segment
    else ok (segment_of address)

-- writableSegmentForAddress
unfoldable pub writable_segment_for_address : ℕ → Result ℕ
unfolding segment_for_address
writable_segment_for_address address =
    if segment_of address == segment_const
    then err read_only_memory
    else segment_for_address address

-- What every Read method does with its segment's method.
unfoldable pub read_by : (ℕ → Exec MemorySegment ℕ) → ℕ → Exec ProgramMemory ℕ
unfolding segment_for_address on_segment index_of
read_by read address = do
  segment ← lift (segment_for_address address)
  on_segment segment (read (index_of address))

-- What every Write method does with its segment's method.
unfoldable pub write_by :
    (ℕ → ℕ → Exec MemorySegment (Unit {0})) → ℕ → ℕ → Exec ProgramMemory (Unit {0})
unfolding writable_segment_for_address on_segment index_of
write_by write address value = do
  segment ← lift (writable_segment_for_address address)
  on_segment segment (write (index_of address) value)

unfoldable pub load_uint8 : ℕ → Exec ProgramMemory ℕ
unfolding read_by
load_uint8 = read_by read_uint8

unfoldable pub load_uint16 : ℕ → Exec ProgramMemory ℕ
unfolding read_by
load_uint16 = read_by read_uint16

unfoldable pub load_uint32 : ℕ → Exec ProgramMemory ℕ
unfolding read_by
load_uint32 = read_by read_uint32

unfoldable pub load_uint64 : ℕ → Exec ProgramMemory ℕ
unfolding read_by
load_uint64 = read_by read_uint64

unfoldable pub store_uint8 : ℕ → ℕ → Exec ProgramMemory (Unit {0})
unfolding write_by
store_uint8 = write_by write_uint8

unfoldable pub store_uint16 : ℕ → ℕ → Exec ProgramMemory (Unit {0})
unfolding write_by
store_uint16 = write_by write_uint16

unfoldable pub store_uint32 : ℕ → ℕ → Exec ProgramMemory (Unit {0})
unfolding write_by
store_uint32 = write_by write_uint32

unfoldable pub store_uint64 : ℕ → ℕ → Exec ProgramMemory (Unit {0})
unfolding write_by
store_uint64 = write_by write_uint64

-- ReadBool
unfoldable pub load_bool : ℕ → Exec ProgramMemory Bool
unfolding load_uint8
load_bool address = do value ← load_uint8 address; pure (not (value == 0))

-- WriteBool
unfoldable pub store_bool : ℕ → Bool → Exec ProgramMemory (Unit {0})
unfolding store_uint8
store_bool address value = store_uint8 address (if value then 1 else 0)

-- ReadInt8
unfoldable pub load_int8 : ℕ → Exec ProgramMemory ℤ
unfolding load_uint8 signed
load_int8 address = do value ← load_uint8 address; pure (signed 8 value)

-- ReadInt16
unfoldable pub load_int16 : ℕ → Exec ProgramMemory ℤ
unfolding load_uint16 signed
load_int16 address = do value ← load_uint16 address; pure (signed 16 value)

-- ReadInt32
unfoldable pub load_int32 : ℕ → Exec ProgramMemory ℤ
unfolding load_uint32 signed
load_int32 address = do value ← load_uint32 address; pure (signed 32 value)

-- ReadInt64
unfoldable pub load_int64 : ℕ → Exec ProgramMemory ℤ
unfolding load_uint64 signed
load_int64 address = do value ← load_uint64 address; pure (signed 64 value)

-- WriteInt8
unfoldable pub store_int8 : ℕ → ℤ → Exec ProgramMemory (Unit {0})
unfolding store_uint8 pattern_of
store_int8 address value = store_uint8 address (pattern_of 8 value)

-- WriteInt16
unfoldable pub store_int16 : ℕ → ℤ → Exec ProgramMemory (Unit {0})
unfolding store_uint16 pattern_of
store_int16 address value = store_uint16 address (pattern_of 16 value)

-- WriteInt32
unfoldable pub store_int32 : ℕ → ℤ → Exec ProgramMemory (Unit {0})
unfolding store_uint32 pattern_of
store_int32 address value = store_uint32 address (pattern_of 32 value)

-- WriteInt64
unfoldable pub store_int64 : ℕ → ℤ → Exec ProgramMemory (Unit {0})
unfolding store_uint64 pattern_of
store_int64 address value = store_uint64 address (pattern_of 64 value)

-- ReadAddress
unfoldable pub load_address : ℕ → Exec ProgramMemory ℕ
unfolding load_uint32
load_address = load_uint32

-- WriteAddress
unfoldable pub store_address : ℕ → ℕ → Exec ProgramMemory (Unit {0})
unfolding store_uint32
store_address = store_uint32

-- ReadFloat32 and ReadFloat64: a float is its bit pattern.
unfoldable pub load_float32 : ℕ → Exec ProgramMemory ℕ
unfolding load_uint32
load_float32 = load_uint32

unfoldable pub load_float64 : ℕ → Exec ProgramMemory ℕ
unfolding load_uint64
load_float64 = load_uint64

-- WriteFloat32 and WriteFloat64
unfoldable pub store_float32 : ℕ → ℕ → Exec ProgramMemory (Unit {0})
unfolding store_uint32
store_float32 = store_uint32

unfoldable pub store_float64 : ℕ → ℕ → Exec ProgramMemory (Unit {0})
unfolding store_uint64
store_float64 = store_uint64
