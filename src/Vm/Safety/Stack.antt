-- ===== src/Vm/Safety/Stack.antt =====
-- The machine's invariant through the pushes and pops of cova/vm.go.
use go_lcc.Base.{ℕ, Bool, true, false}
use go_lcc.Base.Int.{ℤ}
use go_lcc.Status.{Result, ok, err, panic, NoPanic, stack_overflow}
use go_lcc.Exec.{Exec}
use go_lcc.Exec.Safe.{Safe, safe_rules}
use go_lcc.Kinds.{ValueKind}
use go_lcc.Segment.{MemorySegment}
use go_lcc.Segment.Safe.{
  Fits, append_uint-Safe, truncate_uint-Safe, append_bits-Safe, truncate_bits-Safe,
}
use go_lcc.Vm.State.{on_stack, set_fault, record_status}
use go_lcc.Vm.Stack.{
  push_result, record_stack_push, push_uint8, push_uint16, push_uint32, push_uint64, pop_uint8,
  pop_uint16, pop_uint32, pop_uint64, push_kind, pop_kind, push_bool, pop_bool, push_int8,
  push_int16, push_int32, push_int64, pop_int8, pop_int16, pop_int32, pop_int64, push_address,
  pop_address, push_float32, push_float64, pop_float32, pop_float64,
}
use go_lcc.Vm.Safety.Invariant.{Layout, IsSound, record_status-Safe, recorded-Safe, on_stack-Safe}

module _ (l : Layout) where
  push_result-Safe :
      (n : ℕ) (r : Result (Unit {0})) → NoPanic r → Safe (IsSound l) (push_result n r)
  unfolding set_fault record_status
  push_result-Safe n (ok a) k = record { keeps = λ s h. h; no_panic = λ s h. tt }
  push_result-Safe n (err stack_overflow) k = record { keeps = λ s h. h; no_panic = λ s h. tt }
  push_result-Safe n panic k = absurd k
  push_result-Safe n (err c) k = record_status-Safe l c

  pub record_stack_push-Safe :
      (n : ℕ) (op : Exec MemorySegment (Unit {0}))
      → Safe (Fits l.stack_capacity) op
      → Safe (IsSound l) (record_stack_push n op)
  unfolding record_stack_push
  record_stack_push-Safe n op k =
      let m : Safe (IsSound l) (on_stack op) = on_stack-Safe l op k in
      record {
        keeps = λ s h.
            (push_result-Safe n (on_stack op s).0 (m.no_panic s h)).keeps (on_stack op s).1
              (m.keeps s h);
        no_panic = λ s h.
            (push_result-Safe n (on_stack op s).0 (m.no_panic s h)).no_panic (on_stack op s).1
              (m.keeps s h);
      }

  pub push_uint8-Safe : (v : ℕ) → Safe (IsSound l) (push_uint8 v)
  unfolding push_uint8
  push_uint8-Safe v = record_stack_push-Safe _ _ (append_uint-Safe l.stack_capacity _ v)

  pub push_uint16-Safe : (v : ℕ) → Safe (IsSound l) (push_uint16 v)
  unfolding push_uint16
  push_uint16-Safe v = record_stack_push-Safe _ _ (append_uint-Safe l.stack_capacity _ v)

  pub push_uint32-Safe : (v : ℕ) → Safe (IsSound l) (push_uint32 v)
  unfolding push_uint32
  push_uint32-Safe v = record_stack_push-Safe _ _ (append_uint-Safe l.stack_capacity _ v)

  pub push_uint64-Safe : (v : ℕ) → Safe (IsSound l) (push_uint64 v)
  unfolding push_uint64
  push_uint64-Safe v = record_stack_push-Safe _ _ (append_uint-Safe l.stack_capacity _ v)

  pub pop_uint8-Safe : Safe (IsSound l) pop_uint8
  unfolding pop_uint8
  pop_uint8-Safe = recorded-Safe l _ (on_stack-Safe l _ (truncate_uint-Safe l.stack_capacity _))

  pub pop_uint16-Safe : Safe (IsSound l) pop_uint16
  unfolding pop_uint16
  pop_uint16-Safe = recorded-Safe l _ (on_stack-Safe l _ (truncate_uint-Safe l.stack_capacity _))

  pub pop_uint32-Safe : Safe (IsSound l) pop_uint32
  unfolding pop_uint32
  pop_uint32-Safe = recorded-Safe l _ (on_stack-Safe l _ (truncate_uint-Safe l.stack_capacity _))

  pub pop_uint64-Safe : Safe (IsSound l) pop_uint64
  unfolding pop_uint64
  pop_uint64-Safe = recorded-Safe l _ (on_stack-Safe l _ (truncate_uint-Safe l.stack_capacity _))

  pub push_kind-Safe : (kind : ValueKind) (bits : ℕ) → Safe (IsSound l) (push_kind kind bits)
  unfolding push_kind
  push_kind-Safe kind bits =
      record_stack_push-Safe _ _ (append_bits-Safe l.stack_capacity kind bits)

  pub pop_kind-Safe : (kind : ValueKind) → Safe (IsSound l) (pop_kind kind)
  unfolding pop_kind
  pop_kind-Safe kind =
      recorded-Safe l _ (on_stack-Safe l _ (truncate_bits-Safe l.stack_capacity kind))

  pub push_bool-Safe : (v : Bool) → Safe (IsSound l) (push_bool v)
  unfolding push_bool
  push_bool-Safe true = push_uint8-Safe 1
  push_bool-Safe false = push_uint8-Safe 0

  pub pop_bool-Safe : Safe (IsSound l) pop_bool
  unfolding pop_bool
  pop_bool-Safe = search (safe_rules, pop_uint8-Safe)

  pub push_int8-Safe : (v : ℤ) → Safe (IsSound l) (push_int8 v)
  unfolding push_int8
  push_int8-Safe v = push_uint8-Safe _

  pub pop_int8-Safe : Safe (IsSound l) pop_int8
  unfolding pop_int8
  pop_int8-Safe = search (safe_rules, pop_uint8-Safe)

  pub push_int16-Safe : (v : ℤ) → Safe (IsSound l) (push_int16 v)
  unfolding push_int16
  push_int16-Safe v = push_uint16-Safe _

  pub pop_int16-Safe : Safe (IsSound l) pop_int16
  unfolding pop_int16
  pop_int16-Safe = search (safe_rules, pop_uint16-Safe)

  pub push_int32-Safe : (v : ℤ) → Safe (IsSound l) (push_int32 v)
  unfolding push_int32
  push_int32-Safe v = push_uint32-Safe _

  pub pop_int32-Safe : Safe (IsSound l) pop_int32
  unfolding pop_int32
  pop_int32-Safe = search (safe_rules, pop_uint32-Safe)

  pub push_int64-Safe : (v : ℤ) → Safe (IsSound l) (push_int64 v)
  unfolding push_int64
  push_int64-Safe v = push_uint64-Safe _

  pub pop_int64-Safe : Safe (IsSound l) pop_int64
  unfolding pop_int64
  pop_int64-Safe = search (safe_rules, pop_uint64-Safe)

  pub push_address-Safe : (v : ℕ) → Safe (IsSound l) (push_address v)
  unfolding push_address
  push_address-Safe v = push_uint32-Safe v

  pub pop_address-Safe : Safe (IsSound l) pop_address
  unfolding pop_address
  pop_address-Safe = pop_uint32-Safe

  pub push_float32-Safe : (v : ℕ) → Safe (IsSound l) (push_float32 v)
  unfolding push_float32
  push_float32-Safe v = push_uint32-Safe v

  pub pop_float32-Safe : Safe (IsSound l) pop_float32
  unfolding pop_float32
  pop_float32-Safe = pop_uint32-Safe

  pub push_float64-Safe : (v : ℕ) → Safe (IsSound l) (push_float64 v)
  unfolding push_float64
  push_float64-Safe v = push_uint64-Safe v

  pub pop_float64-Safe : Safe (IsSound l) pop_float64
  unfolding pop_float64
  pop_float64-Safe = pop_uint64-Safe

pub ruleset stack_rules = (
  push_uint8-Safe, pop_uint8-Safe, push_int8-Safe, pop_int8-Safe, push_uint16-Safe, pop_uint16-Safe,
  push_int16-Safe, pop_int16-Safe, push_uint32-Safe, pop_uint32-Safe, push_int32-Safe,
  pop_int32-Safe, push_uint64-Safe, pop_uint64-Safe, push_int64-Safe, pop_int64-Safe,
  push_kind-Safe, pop_kind-Safe, push_bool-Safe, pop_bool-Safe, push_address-Safe, pop_address-Safe,
  push_float32-Safe, pop_float32-Safe, push_float64-Safe, pop_float64-Safe,
)
