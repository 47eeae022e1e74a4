-- ===== src/Vm/Stack.antt =====
-- cova/vm.go: pushes to the machine's stack and pops from it. A stack overflow is recorded with the
-- bytes that were wanted and the capacity, every other error by recordStatus.
use go_lcc.Base.{ℕ, ◌+◌, Bool, not, ◌==◌, if◌then◌else◌, length}
use go_lcc.Base.Int.{ℤ, pos, minus_one}
use go_lcc.Status.{Result, ok, err, panic, stack_overflow}
use go_lcc.Exec.{Exec, pure, ◌>>=◌}
use go_lcc.Words.{signed, pattern_of}
use go_lcc.Kinds.{ValueKind, size}
use go_lcc.Segment.{
  MemorySegment, append_uint8, append_uint16, append_uint32, append_uint64, truncate_uint8,
  truncate_uint16, truncate_uint32, truncate_uint64, append_bits, truncate_bits,
}
use go_lcc.Vm.State.{Vm, set_fault, record_status, recorded, on_stack, stack_of}

abbrev pub push_result : ℕ → Result (Unit {0}) → Exec Vm (Unit {0})
push_result n (ok a) vm = (ok a, vm)
push_result n (err stack_overflow) vm =
    set_fault stack_overflow minus_one (pos ((stack_of vm).len + n))
      (pos (length (stack_of vm).array)) vm
push_result n (err c) vm = record_status c vm
push_result n panic vm = (panic, vm)

-- recordStackPush
unfoldable pub record_stack_push : ℕ → Exec MemorySegment (Unit {0}) → Exec Vm (Unit {0})
unfolding on_stack set_fault record_status
record_stack_push n op vm = let (r, vm') = on_stack op vm in push_result n r vm'

unfoldable pub push_uint8 : ℕ → Exec Vm (Unit {0})
unfolding record_stack_push append_uint8
push_uint8 value = record_stack_push 1 (append_uint8 value)

unfoldable pub push_uint16 : ℕ → Exec Vm (Unit {0})
unfolding record_stack_push append_uint16
push_uint16 value = record_stack_push 2 (append_uint16 value)

unfoldable pub push_uint32 : ℕ → Exec Vm (Unit {0})
unfolding record_stack_push append_uint32
push_uint32 value = record_stack_push 4 (append_uint32 value)

unfoldable pub push_uint64 : ℕ → Exec Vm (Unit {0})
unfolding record_stack_push append_uint64
push_uint64 value = record_stack_push 8 (append_uint64 value)

unfoldable pub pop_uint8 : Exec Vm ℕ
unfolding recorded on_stack truncate_uint8
pop_uint8 = recorded (on_stack truncate_uint8)

unfoldable pub pop_uint16 : Exec Vm ℕ
unfolding recorded on_stack truncate_uint16
pop_uint16 = recorded (on_stack truncate_uint16)

unfoldable pub pop_uint32 : Exec Vm ℕ
unfolding recorded on_stack truncate_uint32
pop_uint32 = recorded (on_stack truncate_uint32)

unfoldable pub pop_uint64 : Exec Vm ℕ
unfolding recorded on_stack truncate_uint64
pop_uint64 = recorded (on_stack truncate_uint64)

-- pushKind, which PushBits is
unfoldable pub push_kind : ValueKind → ℕ → Exec Vm (Unit {0})
unfolding record_stack_push append_bits size
push_kind kind bits = record_stack_push (size kind) (append_bits kind bits)

-- popKind, which PopBits is
unfoldable pub pop_kind : ValueKind → Exec Vm ℕ
unfolding recorded on_stack truncate_bits size
pop_kind kind = recorded (on_stack (truncate_bits kind))

-- PushBool
unfoldable pub push_bool : Bool → Exec Vm (Unit {0})
unfolding push_uint8
push_bool value = if value then push_uint8 1 else push_uint8 0

-- PopBool
unfoldable pub pop_bool : Exec Vm Bool
unfolding pop_uint8 ◌>>=◌
pop_bool = do value ← pop_uint8; pure (not (value == 0))

unfoldable pub push_int8 : ℤ → Exec Vm (Unit {0})
unfolding push_uint8 pattern_of
push_int8 value = push_uint8 (pattern_of 8 value)

unfoldable pub push_int16 : ℤ → Exec Vm (Unit {0})
unfolding push_uint16 pattern_of
push_int16 value = push_uint16 (pattern_of 16 value)

unfoldable pub push_int32 : ℤ → Exec Vm (Unit {0})
unfolding push_uint32 pattern_of
push_int32 value = push_uint32 (pattern_of 32 value)

unfoldable pub push_int64 : ℤ → Exec Vm (Unit {0})
unfolding push_uint64 pattern_of
push_int64 value = push_uint64 (pattern_of 64 value)

unfoldable pub pop_int8 : Exec Vm ℤ
unfolding pop_uint8 signed ◌>>=◌
pop_int8 = do value ← pop_uint8; pure (signed 8 value)

unfoldable pub pop_int16 : Exec Vm ℤ
unfolding pop_uint16 signed ◌>>=◌
pop_int16 = do value ← pop_uint16; pure (signed 16 value)

unfoldable pub pop_int32 : Exec Vm ℤ
unfolding pop_uint32 signed ◌>>=◌
pop_int32 = do value ← pop_uint32; pure (signed 32 value)

unfoldable pub pop_int64 : Exec Vm ℤ
unfolding pop_uint64 signed ◌>>=◌
pop_int64 = do value ← pop_uint64; pure (signed 64 value)

-- pushAddress
unfoldable pub push_address : ℕ → Exec Vm (Unit {0})
unfolding push_uint32
push_address = push_uint32

-- popAddress
unfoldable pub pop_address : Exec Vm ℕ
unfolding pop_uint32
pop_address = pop_uint32

-- PushFloat32, PushFloat64, PopFloat32 and PopFloat64: a float is its bit pattern.
unfoldable pub push_float32 : ℕ → Exec Vm (Unit {0})
unfolding push_uint32
push_float32 = push_uint32

unfoldable pub push_float64 : ℕ → Exec Vm (Unit {0})
unfolding push_uint64
push_float64 = push_uint64

unfoldable pub pop_float32 : Exec Vm ℕ
unfolding pop_uint32
pop_float32 = pop_uint32

unfoldable pub pop_float64 : Exec Vm ℕ
unfolding pop_uint64
pop_float64 = pop_uint64
