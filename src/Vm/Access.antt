-- ===== src/Vm/Access.antt =====
-- cova/vm.go: loads and stores between the stack and an address, and the host's view of the extern
-- segment.
use go_lcc.Base.{ℕ, ◌+◌, ltb, ◌==◌}
use go_lcc.Base.Int.{ℤ, pos, minus_one}
use go_lcc.Status.{Result, ok, err, panic, invalid_value_kind, invalid_address, read_only_memory}
use go_lcc.Exec.{Exec, raise, lift, gets, fail_if, ◌>>=◌}
use go_lcc.Kinds.{ValueKind, size}
use go_lcc.Segment.{
  MemorySegment, new_memory_segment, read_uint8, read_uint16, read_uint32, read_uint64, write_uint8,
  write_uint16, write_uint32, write_uint64, by_size,
}
use go_lcc.Memory.{
  update, on_segment, segment_for_address, segment_of, index_of, segment_const, segment_extern,
  make_address, load_int32, store_int32,
}
use go_lcc.Vm.State.{Vm, set_fault, recorded, in_memory}
use go_lcc.Vm.Stack.{
  push_uint8, push_uint16, push_uint32, push_uint64, pop_uint8, pop_uint16, pop_uint32, pop_uint64,
}

-- A read of the source segment whose error is recorded, then the push of what was read.
unfoldable pub load_and_push :
    Exec MemorySegment ℕ → (ℕ → Exec Vm (Unit {0})) → ℕ → Exec Vm (Unit {0})
unfolding recorded in_memory on_segment
load_and_push read push segment = do
  value ← recorded (in_memory (on_segment segment read))
  push value

abbrev pub located : {A : Type 0} → ℕ → Result ℕ → (ℕ → Exec Vm A) → Exec Vm A
located address (ok segment) k = k segment
located address (err c) k = set_fault c (pos address) minus_one minus_one
located address panic k = lift panic

-- pushFromMemory
unfoldable pub push_from_memory : ℕ → ValueKind → Exec Vm (Unit {0})
unfolding segment_for_address index_of size set_fault recorded load_and_push push_uint8 push_uint16
    push_uint32 push_uint64 read_uint8 read_uint16 read_uint32 read_uint64
push_from_memory address kind = located address (segment_for_address address) λ source.
    by_size kind (load_and_push (read_uint8 (index_of address)) push_uint8 source)
      (load_and_push (read_uint16 (index_of address)) push_uint16 source)
      (load_and_push (read_uint32 (index_of address)) push_uint32 source)
      (load_and_push (read_uint64 (index_of address)) push_uint64 source)
      (recorded (raise invalid_value_kind))

-- A pop, then the write of what was popped to the destination as it then is.
unfoldable pub pop_and_store :
    Exec Vm ℕ → (ℕ → Exec MemorySegment (Unit {0})) → ℕ → Exec Vm (Unit {0})
unfolding in_memory on_segment
pop_and_store pop write segment = do value ← pop; in_memory (on_segment segment (write value))

-- popToMemory
unfoldable pub pop_to_memory : ℕ → ValueKind → Exec Vm (Unit {0})
unfolding segment_for_address segment_of index_of size pop_and_store pop_uint8 pop_uint16 pop_uint32
    pop_uint64 write_uint8 write_uint16 write_uint32 write_uint64
pop_to_memory address kind = fail_if (segment_of address == segment_const) read_only_memory do
  destination ← lift (segment_for_address address)
  len ← gets (λ vm. (vm.memory.segment destination).len)
  fail_if (size kind == 0) invalid_value_kind (
      fail_if (ltb len (index_of address + size kind)) invalid_address (
        by_size kind (pop_and_store pop_uint8 (write_uint8 (index_of address)) destination)
          (pop_and_store pop_uint16 (write_uint16 (index_of address)) destination)
          (pop_and_store pop_uint32 (write_uint32 (index_of address)) destination)
          (pop_and_store pop_uint64 (write_uint64 (index_of address)) destination)
          (raise invalid_value_kind)))

-- AllocateExternMemory
unfoldable pub allocate_extern_memory : ℕ → Vm → Vm
unfolding update new_memory_segment
allocate_extern_memory n vm = record vm {
  memory = update vm.memory segment_extern (new_memory_segment n n);
}

-- BindExternBlock; the block's writes by the host are calls of this function in the model.
unfoldable pub bind_extern_block : MemorySegment → Vm → Vm
unfolding update
bind_extern_block block vm = record vm { memory = update vm.memory segment_extern block }

abbrev or_zero : Result ℤ → ℤ
or_zero (ok value) = value
or_zero _ = pos 0

-- LoadExternInt32
unfoldable pub load_extern_int32 : ℕ → Vm → ℤ
unfolding load_int32 make_address
load_extern_int32 offset vm = or_zero (load_int32 (make_address segment_extern offset) vm.memory).0

-- StoreExternInt32
unfoldable pub store_extern_int32 : ℕ → ℤ → Vm → Vm
unfolding store_int32 make_address
store_extern_int32 offset value vm = record vm {
  memory = (store_int32 (make_address segment_extern offset) value vm.memory).1;
}
