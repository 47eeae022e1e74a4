-- ===== src/Vm/Safety/Start.antt =====
-- Reset of cova/vm.go with a well-formed entry function.
use go_lcc.Base.{
  ℕ, ◌≡◌, ◌≤◌, ◌<◌, refl, arith, ap, sym, ◌∙◌, Bool, false, u32, List, length, get_elem?, none,
  some,
}
use mathlib.Core.Path.{subst}
use go_lcc.Base.Int.{ℤ}
use go_lcc.Status.{VmStatus, Result, ok, panic}
use go_lcc.Exec.{Exec, pure, lift, continue, ◌>>=◌}
use go_lcc.Program.{LinkedProgram, ScriptFunctionDescriptor}
use go_lcc.Vm.State.{Vm, fault_if, clear_fault, recorded, record_result}
use go_lcc.Vm.Call.{
  at_index, loaded_program, check_params, clear_frame, push_call_frame, enter_checked, check_room,
  enter_in, enter_script_function,
}
use go_lcc.Vm.Load.{reset, reset_with, reset_state, enter_entry}
use go_lcc.Vm.Safety.Invariant.{Layout, IsSound}
use go_lcc.Vm.Safety.Load.{reset_state-Sound}

fault_if-passes :
    {A : Type 0} (b : Bool) (c : VmStatus) (x y z : ℤ) (m : Exec Vm A) (s : Vm)
    → b ≡ false
    → fault_if b c x y z m s ≡ m s
unfolding fault_if
fault_if-passes b c x y z m s e = rw e refl

known-bind :
    {A B : Type 0} (r : Result A) (a : A) (k : A → Exec Vm B) (s : Vm)
    → r ≡ ok a
    → (lift r >>= k) s ≡ k a s
unfolding lift ◌>>=◌
known-bind r a k s e = rw e refl

no_params-bind :
    {B : Type 0} (p : LinkedProgram) (f : ScriptFunctionDescriptor) (n : ℕ) (k : ℕ → Exec Vm B)
    (s : Vm)
    → n ≡ 0
    → (check_params p f n 0 0 >>= k) s ≡ k 0 s
unfolding check_params pure ◌>>=◌
no_params-bind p f n k s e = rw e refl

at_index-eq-ok :
    {A : Type 0} (xs : List A) (i : ℕ) (x : A) → get_elem? xs i ≡ some x → at_index xs i ≡ ok x
unfolding at_index
at_index-eq-ok xs i x e = ap (λ o. elim o [ none ↦ panic | some y ↦ ok y ]) e

-- The machine's state after an entry.
abbrev pub Started : ScriptFunctionDescriptor → Result (Unit {0}) × Vm → Type 0
Started f o = (o.0 ≡ ok tt) × (o.1.pc ≡ f.body_address) × (o.1.call_frame_top ≡ 1)

recorded-Started :
    (f : ScriptFunctionDescriptor) (m : Exec Vm (Unit {0})) (vm : Vm)
    → Started f (m vm)
    → Started f (recorded m vm)
unfolding recorded
recorded-Started f m vm (done, pc, frames) =
    subst (λ r. Started f (record_result r (m vm).1)) (sym done) (refl, pc, frames)

-- What the entry function must be for a machine of a layout.
pub record IsEntry (l : Layout) (f : ScriptFunctionDescriptor) : Type 0 where
  pub found : get_elem? l.program.functions l.program.entry_point ≡ some f
  pub numbered : l.program.entry_point < u32 (length l.program.functions)
  pub no_params : f.param_count ≡ 0
  pub body : f.body_address < u32 (length l.program.text)
  pub kinds : f.param_start ≤ u32 (length l.program.param_kinds)
  pub offsets : f.param_start ≤ u32 (length l.program.param_offsets)
  pub frame : f.frame_byte_size ≤ l.frame_capacity
  pub call_frame : 0 < l.call_capacity

module _ (l : Layout) (f : ScriptFunctionDescriptor) (e : IsEntry l f) (vm : Vm) (s : IsSound l vm)
    (top : vm.call_frame_top ≡ 0) (base : vm.frame_top ≡ 0) where
  check_room-Started : Started f (check_room l.program f l.program.entry_point 0 0 false vm)
  unfolding check_room enter_checked clear_frame push_call_frame pure ◌>>=◌ fault_if
  check_room-Started = ground (
    arith, s.frame_full, s.frame.backed, s.frame.small, s.call_frames, s.call_small, e.frame,
    e.call_frame, top, base,
  )

  enter_in-Started : Started f (enter_in l.program.entry_point 0 false l.program vm)
  unfolding enter_in
  enter_in-Started =
      let same : enter_in l.program.entry_point 0 false l.program vm
          ≡ check_room l.program f l.program.entry_point 0 0 false vm =
        fault_if-passes _ _ _ _ _ _ vm (ground (arith, e.numbered))
        ∙ known-bind _ f _ vm (at_index-eq-ok l.program.functions l.program.entry_point f e.found)
        ∙ fault_if-passes _ _ _ _ _ _ vm (ground (arith, e.body))
        ∙ fault_if-passes _ _ _ _ _ _ vm (ground (arith, e.no_params, e.kinds, e.offsets))
        ∙ no_params-bind l.program f f.param_count _ vm e.no_params in
      subst (Started f) (sym same) check_room-Started

  enter_script_function-Started : Started f (enter_script_function l.program.entry_point 0 false vm)
  unfolding enter_script_function lift ◌>>=◌
  enter_script_function-Started =
      let loaded : loaded_program vm ≡ ok l.program =
        unfold loaded_program in ap (λ o. elim o [ none ↦ panic | some q ↦ ok q ]) s.loaded in
      subst (λ r. Started f (continue r (λ q. enter_in l.program.entry_point 0 false q) vm))
        (sym loaded) enter_in-Started

  enter_entry-Started : Started f (enter_entry l.program vm)
  unfolding enter_entry
  enter_entry-Started =
      let same : enter_entry l.program vm
          ≡ recorded (enter_script_function l.program.entry_point 0 false) vm =
        fault_if-passes _ _ _ _ _ _ vm (ground (arith, e.numbered))
        ∙ known-bind _ f _ vm (at_index-eq-ok l.program.functions l.program.entry_point f e.found)
        ∙ fault_if-passes _ _ _ _ _ _ vm (ground (arith, e.no_params)) in
      subst (Started f) (sym same) (
        recorded-Started f (enter_script_function l.program.entry_point 0 false) vm
          enter_script_function-Started)

reset_with-Started :
    (l : Layout) (f : ScriptFunctionDescriptor) (vm : Vm)
    → IsEntry l f
    → IsSound l vm
    → Started f (reset_with (some l.program) vm)
unfolding reset_with clear_fault reset_state
reset_with-Started l f vm e s =
    enter_entry-Started l f e (reset_state l.program (clear_fault vm))
      (reset_state-Sound l (clear_fault vm) s) refl refl

-- A reset of a sound machine whose program's entry function is in its tables, takes no parameters, has
-- its body in the code and its frame in the frame segment: it succeeds, the next instruction is the
-- first of the entry function, and there is one call frame.
pub reset-IsEntry :
    (l : Layout) (f : ScriptFunctionDescriptor) (vm : Vm)
    → IsEntry l f
    → IsSound l vm
    → ((reset vm).0 ≡ ok tt)
      × ((reset vm).1.pc ≡ f.body_address)
      × ((reset vm).1.call_frame_top ≡ 1)
unfolding reset
reset-IsEntry l f vm e s =
    subst (λ p. Started f (reset_with p vm)) (sym s.loaded) (reset_with-Started l f vm e s)
