-- ===== src/Vm/Safety/Enter.antt =====
-- The machine's invariant through enterScriptFunction of cova/vm.go.
use go_lcc.Base.{
  ℕ, zero, suc, ◌+◌, ◌≤◌, ◌<◌, ◌≡◌, refl, arith, length, if◌then◌else◌, Bool, true, false, u32,
}
use go_lcc.Base.Int.{ℤ}
use go_lcc.Status.{VmStatus, Result, ok, err, panic, NoPanic}
use go_lcc.Exec.{Exec, pure, continue, ◌>>=◌}
use go_lcc.Exec.Safe.{Safe, Safe-bind, Safe-pure, Safe-lift, Safe-gets}
use go_lcc.Kinds.{size}
use go_lcc.Program.{LinkedProgram, ScriptFunctionDescriptor}
use go_lcc.Vm.State.{Vm, set_fault, fault_if}
use go_lcc.Vm.Call.{
  loaded_program, check_params, pop_args, enter_checked, params_outside, check_room,
  enter_script_function, enter_in, call_script_function,
}
use go_lcc.Vm.Safety.Invariant.{Layout, IsSound, set_fault-Safe, fault_if-Safe}
use go_lcc.Vm.Safety.Frames.{
  at_index-NoPanic, AtTop, clear_frame-Safe, pop_args-Safe, push_call_frame-IsSound,
}

-- A result and a state that the invariant allows.
abbrev pub Good : {A : Type 0} → Layout → Result A × Vm → Type 0
Good l (r, vm) = IsSound l vm × NoPanic r

module _ (l : Layout) where
  continue-Good :
      {A B : Type 0} {P : Vm → Type 0} (m : Exec Vm A) (k : A → Exec Vm B) (r : Result A) (vm : Vm)
      → P vm
      → NoPanic r
      → ((vm' : Vm) → P vm' → IsSound l vm')
      → ((a : A) (vm' : Vm) → P vm' → Good l (k a vm'))
      → Good l (continue r k vm)
  continue-Good m k (ok a) vm h n sound go = go a vm h
  continue-Good m k (err c) vm h n sound go = (sound vm h, tt)
  continue-Good m k panic vm h n sound go = absurd n

  then-Good :
      {A B : Type 0} {P : Vm → Type 0} (m : Exec Vm A) (k : A → Exec Vm B) (vm : Vm)
      → Safe P m
      → P vm
      → ((vm' : Vm) → P vm' → IsSound l vm')
      → ((a : A) (vm' : Vm) → P vm' → Good l (k a vm'))
      → Good l ((m >>= k) vm)
  unfolding ◌>>=◌
  then-Good m k vm safe h sound go =
      continue-Good m k (m vm).0 (m vm).1 (safe.keeps vm h) (safe.no_panic vm h) sound go

  pub fault_if-Good :
      {A : Type 0} (b : Bool) (c : VmStatus) (x y z : ℤ) (m : Exec Vm A) (vm : Vm)
      → IsSound l vm
      → (b ≡ false → Good l (m vm))
      → Good l (fault_if b c x y z m vm)
  unfolding fault_if set_fault
  fault_if-Good {A} true c x y z m vm s k = ((set_fault-Safe l {A = A} c x y z).keeps vm s, tt)
  fault_if-Good false c x y z m vm s k = k refl

  -- Once the checks have passed a call succeeds.
  enter_checked-Good :
      (p : LinkedProgram) (f : ScriptFunctionDescriptor) (local_base return_pc : ℕ) (pop : Bool)
      (vm : Vm)
      → f.param_start + f.param_count ≤ length p.param_kinds
      → f.param_start + f.param_count ≤ length p.param_offsets
      → local_base + f.frame_byte_size ≤ l.frame_capacity
      → vm.call_frame_top < l.call_capacity
      → IsSound l vm
      → Good l (enter_checked p f local_base return_pc pop vm)
  unfolding enter_checked
  enter_checked-Good p f local_base return_pc pop vm hk ho room top s =
      let t = vm.call_frame_top in
      let small = s.frame.small in
      then-Good _ _ vm
        (clear_frame-Safe l t local_base (u32 (local_base + f.frame_byte_size)) (omega arith)
          (omega arith))
        (s, refl) (λ vm' h. h.0)
        λ _ vm1 h1.
          then-Good _ _ vm1 (args pop) h1 (λ vm' h. h.0)
            λ _ vm2 h2. push_call_frame-IsSound l t _ _ _ vm2 top h2
    where
      args :
          (b : Bool)
          → Safe
              (AtTop l vm.call_frame_top)
              (if b then pop_args p f local_base f.param_count else pure tt)
      args true =
          pop_args-Safe l vm.call_frame_top p f local_base f.param_count (hk, ho) (omega arith)
      args false = Safe-pure tt

  check_params-Safe :
      (p : LinkedProgram) (f : ScriptFunctionDescriptor) (left index bytes : ℕ)
      → f.param_start + f.param_count ≤ length p.param_kinds
      → f.param_start + f.param_count ≤ length p.param_offsets
      → index + left ≤ f.param_count
      → Safe (IsSound l) (check_params p f left index bytes)
  unfolding check_params
  check_params-Safe p f zero index bytes hk ho h = Safe-pure _
  check_params-Safe p f (suc left) index bytes hk ho h =
      Safe-bind _ _
        (Safe-lift _ (at_index-NoPanic p.param_kinds (u32 (f.param_start + index)) (omega arith)))
        λ kind. fault_if-Safe l _ _ _ _ _ _ λ _.
          Safe-bind _ _
            (Safe-lift _
              (at_index-NoPanic p.param_offsets (u32 (f.param_start + index)) (omega arith)))
            λ offset. fault_if-Safe l _ _ _ _ _ _ λ _.
              fault_if-Safe l _ _ _ _ _ _
                λ _. check_params-Safe p f left (index + 1) (bytes + size kind) hk ho (omega arith)

  check_room-Good :
      (p : LinkedProgram) (f : ScriptFunctionDescriptor) (index bytes return_pc : ℕ) (pop : Bool)
      (vm : Vm)
      → f.param_start + f.param_count ≤ length p.param_kinds
      → f.param_start + f.param_count ≤ length p.param_offsets
      → IsSound l vm
      → Good l (check_room p f index bytes return_pc pop vm)
  unfolding check_room
  check_room-Good p f index bytes return_pc pop vm hk ho s = fault_if-Good _ _ _ _ _ _ vm s λ _.
      fault_if-Good _ _ _ _ _ _ vm s λ room. fault_if-Good _ _ _ _ _ _ vm s λ top.
        enter_checked-Good p f vm.frame_top return_pc pop vm hk ho
          (ground (arith, s.frame_full, s.frame.small))
          (ground (arith, s.call_frames, s.call_small)) s

  in_tables :
      (p : LinkedProgram) (f : ScriptFunctionDescriptor)
      → params_outside p f ≡ false
      → (f.param_start + f.param_count ≤ length p.param_kinds)
        × (f.param_start + f.param_count ≤ length p.param_offsets)
  in_tables p f h = (ground arith, ground arith)

  loaded_program-ok : (vm : Vm) → IsSound l vm → loaded_program vm ≡ ok l.program
  unfolding loaded_program
  loaded_program-ok vm s = ground (arith, s.loaded)

  check_room-Safe :
      (p : LinkedProgram) (f : ScriptFunctionDescriptor) (index bytes return_pc : ℕ) (pop : Bool)
      → f.param_start + f.param_count ≤ length p.param_kinds
      → f.param_start + f.param_count ≤ length p.param_offsets
      → Safe (IsSound l) (check_room p f index bytes return_pc pop)
  check_room-Safe p f index bytes return_pc pop hk ho = record {
    keeps = λ vm s. (check_room-Good p f index bytes return_pc pop vm hk ho s).0;
    no_panic = λ vm s. (check_room-Good p f index bytes return_pc pop vm hk ho s).1;
  }

  enter_in-Safe :
      (function_index return_pc : ℕ) (pop : Bool) (p : LinkedProgram)
      → Safe (IsSound l) (enter_in function_index return_pc pop p)
  unfolding enter_in
  enter_in-Safe function_index return_pc pop p = fault_if-Safe l _ _ _ _ _ _ λ inside.
      Safe-bind _ _ (Safe-lift _ (at_index-NoPanic p.functions function_index (ground arith))) λ f.
        fault_if-Safe l _ _ _ _ _ _ λ _. fault_if-Safe l _ _ _ _ _ _ λ h.
          let (hk, ho) = in_tables p f h in
          Safe-bind _ _ (check_params-Safe p f f.param_count 0 0 hk ho (omega arith))
            λ bytes. check_room-Safe p f function_index bytes return_pc pop hk ho

  -- A call or an entry, of any function number in any program.
  pub enter_script_function-Safe :
      (function_index return_pc : ℕ) (pop : Bool)
      → Safe (IsSound l) (enter_script_function function_index return_pc pop)
  unfolding enter_script_function
  enter_script_function-Safe function_index return_pc pop = record {
    keeps = λ vm s.
        rw (loaded_program-ok vm s)
          ((enter_in-Safe function_index return_pc pop l.program).keeps vm s);
    no_panic = λ vm s.
        rw (loaded_program-ok vm s)
          ((enter_in-Safe function_index return_pc pop l.program).no_panic vm s);
  }

  pub call_script_function-Safe :
      (function_index : ℕ) → Safe (IsSound l) (call_script_function function_index)
  unfolding call_script_function
  call_script_function-Safe function_index =
      Safe-bind _ _ (Safe-gets _) λ pc. enter_script_function-Safe function_index pc true
