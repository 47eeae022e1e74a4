-- ===== src/Vm/Safety/Call.antt =====
-- The machine's invariant through callExtern and returnFromFunction of cova/vm.go.
use go_lcc.Base.{
  ℕ, ◌-◌, ◌<◌, ◌≡◌, refl, arith, Option, none, some, length, ◌==◌, if◌then◌else◌, Bool, true, false,
}
use go_lcc.Status.{Result, ok, err, panic, NoPanic}
use go_lcc.Exec.{Exec, lift}
use go_lcc.Exec.Safe.{Safe, safe_rules, Safe-bind, Safe-lift}
use go_lcc.Kinds.{ValueKind}
use go_lcc.Vm.State.{Vm, CallFrame, stack_of}
use go_lcc.Vm.Call.{
  at_index, Dispatcher, host_result, call_extern, check_result, leave_frame, return_from_function,
}
use go_lcc.Vm.Safety.Invariant.{Layout, IsSound, set_fault-Safe}
use go_lcc.Vm.Safety.Frames.{at_index-NoPanic}
use go_lcc.Vm.Safety.Enter.{Good}

module _ (l : Layout) where
  host_result-Safe :
      (import_id : ℕ) (r : Result (Unit {0}))
      → NoPanic r
      → Safe (IsSound l) (host_result import_id r)
  host_result-Safe import_id (ok a) n = record { keeps = λ s h. h; no_panic = λ s h. tt }
  host_result-Safe import_id (err c) n = record { keeps = λ s h. h; no_panic = λ s h. tt }
  host_result-Safe import_id panic n = absurd n

  -- The dispatcher, if there is one, keeps the invariant and does not panic.
  abbrev pub HostSafe : Option Dispatcher → Type 0
  HostSafe none = Unit
  HostSafe (some dispatch) = (import_id : ℕ) → Safe (IsSound l) (dispatch import_id)

  pub call_extern-Safe :
      (host : Option Dispatcher) (import_id : ℕ)
      → HostSafe host
      → Safe (IsSound l) (call_extern host import_id)
  unfolding call_extern
  call_extern-Safe none import_id h = set_fault-Safe l _ _ _ _
  call_extern-Safe (some dispatch) import_id h = record {
    keeps = λ vm s.
        (host_result-Safe import_id (dispatch import_id vm).0 ((h import_id).no_panic vm s)).keeps
          (dispatch import_id vm).1 ((h import_id).keeps vm s);
    no_panic = λ vm s.
        (host_result-Safe import_id (dispatch import_id vm).0
            ((h import_id).no_panic vm s)).no_panic
          (dispatch import_id vm).1 ((h import_id).keeps vm s);
  }

  pub if-Good :
      {A : Type 0} (b : Bool) (x y : Result A × Vm)
      → Good l x
      → (b ≡ false → Good l y)
      → Good l (if b then x else y)
  if-Good true x y hx hy = hx
  if-Good false x y hx hy = hy refl

  leave_frame-Good : (frame : CallFrame) (vm : Vm) → IsSound l vm → Good l (leave_frame frame vm)
  leave_frame-Good frame vm s = if-Good (vm.call_frame_top == 0) _ _ (s, tt) (λ _. (s, tt))

  leave_frame-Safe : (frame : CallFrame) → Safe (IsSound l) (leave_frame frame)
  leave_frame-Safe frame = record {
    keeps = λ vm s. (leave_frame-Good frame vm s).0;
    no_panic = λ vm s. (leave_frame-Good frame vm s).1;
  }

  check_result-Safe :
      (kind : ValueKind) (n : ℕ) (m : Exec Vm Bool)
      → Safe (IsSound l) m
      → Safe (IsSound l) (check_result kind n m)
  check_result-Safe kind n m h = search safe_rules

  return_from_function-Good : (vm : Vm) → IsSound l vm → Good l (return_from_function vm)
  unfolding return_from_function
  return_from_function-Good vm s =
      if-Good (vm.call_frame_top == 0) _ _ (s, tt)
        λ some_frame.
          let left : IsSound l (record vm { call_frame_top = vm.call_frame_top - 1 }) = record {
            stack = s.stack;
            frame = s.frame;
            frame_full = s.frame_full;
            backed = s.backed;
            constant = s.constant;
            call_frames = s.call_frames;
            call_top = omega (arith, s.call_top);
            call_small = s.call_small;
            loaded = s.loaded;
          } in
          let inside : vm.call_frame_top - 1 < length vm.call_frames =
            ground (arith, s.call_frames, s.call_top) in
          let rest =
            Safe-bind (lift (at_index vm.call_frames (vm.call_frame_top - 1))) _
              (Safe-lift _ (at_index-NoPanic vm.call_frames (vm.call_frame_top - 1) inside))
              λ (frame : CallFrame).
                check_result-Safe frame.return_kind (stack_of vm).len _ (leave_frame-Safe frame) in
          (rest.keeps _ left, rest.no_panic _ left)

  pub return_from_function-Safe : Safe (IsSound l) return_from_function
  return_from_function-Safe = record {
    keeps = λ vm s. (return_from_function-Good vm s).0;
    no_panic = λ vm s. (return_from_function-Good vm s).1;
  }
