-- ===== src/Segment.antt =====
-- cova/segment-memory.go: the byte segments of the machine's memory. A segment is a Go slice: its
-- backing array, as long as the slice's capacity, and its length. What stands behind the length
-- stays in the array, as it does in Go. No receiver is nil: the program only calls these methods
-- on the segments of a `ProgramMemory`.
pub mod Safe
pub mod Laws
mod Tests
use go_lcc.Base.{
  ℕ, ◌+◌, ◌-◌, ◌^◌, ◌%◌, List, ltb, leb, ◌==◌, if◌then◌else◌, u32, length, take, drop, slice,
  splice, replicate,
}
use go_lcc.Status.{
  VmStatus, Result, ok, err, panic, invalid_address, stack_overflow, stack_underflow,
  invalid_value_kind,
}
use go_lcc.Exec.{Exec, pure, raise, lift, gets, fail_if, modify, ◌>>=◌, ◌>>◌}
use go_lcc.Bytes.{le_bytes, le_value, le_read, le_put}
use go_lcc.Kinds.{ValueKind, size}

pub record MemorySegment : Type 0 where
  pub array : List ℕ
  pub len : ℕ

-- The bytes that the slice shows.
abbrev pub view : MemorySegment → List ℕ
view s = take s.len s.array

abbrev pub capacity : MemorySegment → ℕ
capacity s = length s.array

-- NewMemorySegment: make([]byte, size, max(capacity, size))
unfoldable pub new_memory_segment : ℕ → ℕ → MemorySegment
new_memory_segment size cap = record {
  array = replicate (if ltb cap size then size else cap) 0;
  len = size;
}

-- segment[:n], which panics beyond the capacity.
unfoldable pub reslice : ℕ → Exec MemorySegment (Unit {0})
reslice n s = if leb n (length s.array) then (ok tt, record s { len = n }) else (panic, s)

-- binary.LittleEndian.UintN(segment[offset:])
unfoldable pub get_uint : ℕ → ℕ → Exec MemorySegment ℕ
get_uint n offset s = (if leb (offset + n) s.len then le_read n s.array offset else panic, s)

-- binary.LittleEndian.PutUintN(segment[offset:], value)
unfoldable pub put_uint : ℕ → ℕ → ℕ → Exec MemorySegment (Unit {0})
put_uint n offset value s =
    if leb (offset + n) s.len
    then (ok tt, record s { array = splice s.array offset (le_bytes n value) })
    else (panic, s)

-- The four ReadUint methods, by the number of bytes.
unfoldable pub read_uint : ℕ → ℕ → Exec MemorySegment ℕ
read_uint n offset = do
  len ← gets (λ s. s.len)
  fail_if (ltb len (offset + n)) invalid_address (get_uint n offset)

unfoldable pub read_uint8 : ℕ → Exec MemorySegment ℕ
unfolding read_uint
read_uint8 = read_uint 1

unfoldable pub read_uint16 : ℕ → Exec MemorySegment ℕ
unfolding read_uint
read_uint16 = read_uint 2

unfoldable pub read_uint32 : ℕ → Exec MemorySegment ℕ
unfolding read_uint
read_uint32 = read_uint 4

unfoldable pub read_uint64 : ℕ → Exec MemorySegment ℕ
unfolding read_uint
read_uint64 = read_uint 8

-- The four WriteUint methods.
unfoldable pub write_uint : ℕ → ℕ → ℕ → Exec MemorySegment (Unit {0})
write_uint n offset value = do
  len ← gets (λ s. s.len)
  fail_if (ltb len (offset + n)) invalid_address (put_uint n offset value)

unfoldable pub write_uint8 : ℕ → ℕ → Exec MemorySegment (Unit {0})
unfolding write_uint
write_uint8 = write_uint 1

unfoldable pub write_uint16 : ℕ → ℕ → Exec MemorySegment (Unit {0})
unfolding write_uint
write_uint16 = write_uint 2

unfoldable pub write_uint32 : ℕ → ℕ → Exec MemorySegment (Unit {0})
unfolding write_uint
write_uint32 = write_uint 4

unfoldable pub write_uint64 : ℕ → ℕ → Exec MemorySegment (Unit {0})
unfolding write_uint
write_uint64 = write_uint 8

-- growForAppend: makes room for n bytes and returns where they begin.
unfoldable pub grow_for_append : ℕ → Exec MemorySegment ℕ
grow_for_append n = do
  base ← gets (λ s. u32 s.len)
  cap ← gets (λ s. length s.array)
  fail_if (ltb cap (base + n)) stack_overflow (reslice (u32 (base + n)) >> pure base)

-- The four AppendUint methods.
unfoldable pub append_uint : ℕ → ℕ → Exec MemorySegment (Unit {0})
append_uint n value = do
  base ← gets (λ s. u32 s.len)
  cap ← gets (λ s. length s.array)
  fail_if (ltb cap (base + n)) stack_overflow (reslice (u32 (base + n)) >> put_uint n base value)

unfoldable pub append_uint8 : ℕ → Exec MemorySegment (Unit {0})
unfolding append_uint
append_uint8 = append_uint 1

unfoldable pub append_uint16 : ℕ → Exec MemorySegment (Unit {0})
unfolding append_uint
append_uint16 = append_uint 2

unfoldable pub append_uint32 : ℕ → Exec MemorySegment (Unit {0})
unfolding append_uint
append_uint32 = append_uint 4

unfoldable pub append_uint64 : ℕ → Exec MemorySegment (Unit {0})
unfolding append_uint
append_uint64 = append_uint 8

-- copy((*segment)[base:], bytes), as many bytes as both sides have.
unfoldable pub copy_at : ℕ → List ℕ → Exec MemorySegment (Unit {0})
copy_at base bytes s =
    if leb base s.len
    then (ok tt, record s { array = splice s.array base (take (s.len - base) bytes) })
    else (panic, s)

-- AppendFrom: `source` is a slice of its own, and its check comes before the growth.
unfoldable pub append_from : MemorySegment → ℕ → ℕ → Exec MemorySegment (Unit {0})
unfolding grow_for_append copy_at
append_from source offset n = fail_if (n == 0) invalid_value_kind (
    fail_if (ltb source.len (offset + n)) invalid_address
      do base ← grow_for_append n; copy_at base (slice (view source) offset n))

-- truncateOffset
unfoldable pub truncate_offset : ℕ → Exec MemorySegment ℕ
truncate_offset n = do
  len ← gets (λ s. s.len)
  fail_if (ltb len n) stack_underflow (pure (u32 (u32 len + 2 ^ 32 - n)))

-- The four TruncateUint methods.
unfoldable pub truncate_uint : ℕ → Exec MemorySegment ℕ
truncate_uint n = do
  len ← gets (λ s. s.len)
  fail_if (ltb len n) stack_underflow
      do value ← get_uint n (u32 (len - n)); reslice (u32 (len - n)); pure value

unfoldable pub truncate_uint8 : Exec MemorySegment ℕ
unfolding truncate_uint
truncate_uint8 = truncate_uint 1

unfoldable pub truncate_uint16 : Exec MemorySegment ℕ
unfolding truncate_uint
truncate_uint16 = truncate_uint 2

unfoldable pub truncate_uint32 : Exec MemorySegment ℕ
unfolding truncate_uint
truncate_uint32 = truncate_uint 4

unfoldable pub truncate_uint64 : Exec MemorySegment ℕ
unfolding truncate_uint
truncate_uint64 = truncate_uint 8

-- What a `switch kind.Size()` over the sizes 1, 2, 4 and 8 calls.
abbrev pub by_size {ℓ} : {A : Type ℓ} → ValueKind → A → A → A → A → A → A
by_size kind a1 a2 a4 a8 otherwise =
    if size kind == 1
    then a1
    else if size kind == 2
    then a2
    else if size kind == 4
    then a4
    else if size kind == 8
    then a8
    else otherwise

-- AppendBits; a conversion to a narrower type drops the high bits.
unfoldable pub append_bits : ValueKind → ℕ → Exec MemorySegment (Unit {0})
unfolding append_uint8 append_uint16 append_uint32 append_uint64
append_bits kind bits =
    by_size kind (append_uint8 (bits % 2 ^ 8)) (append_uint16 (bits % 2 ^ 16))
      (append_uint32 (u32 bits)) (append_uint64 bits) (raise invalid_value_kind)

-- TruncateBits
unfoldable pub truncate_bits : ValueKind → Exec MemorySegment ℕ
unfolding truncate_uint8 truncate_uint16 truncate_uint32 truncate_uint64
truncate_bits kind =
    by_size kind truncate_uint8 truncate_uint16 truncate_uint32 truncate_uint64
      (raise invalid_value_kind)

-- The copy and the cut that follow once the offset is known.
abbrev move_out : ℕ → ℕ → Result ℕ → Exec (MemorySegment × MemorySegment) (Unit {0})
move_out offset n (err c) st = (err c, st)
move_out offset n panic st = (panic, st)
move_out offset n (ok from) (source, destination) =
    let bytes = take n (drop from (view source)) in
    let (r, cut) = reslice from source in
    (r, (cut, record destination { array = splice destination.array offset bytes }))

-- TruncateTo, from the first segment to the second: the two are never the same one.
unfoldable pub truncate_to : ℕ → ℕ → Exec (MemorySegment × MemorySegment) (Unit {0})
unfolding truncate_offset reslice ◌>>=◌
truncate_to offset n (source, destination) =
    if n == 0
    then (err invalid_value_kind, (source, destination))
    else if ltb destination.len (offset + n)
    then (err invalid_address, (source, destination))
    else move_out offset n (truncate_offset n source).0 (source, destination)
