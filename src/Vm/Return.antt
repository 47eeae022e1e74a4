-- ===== src/Vm/Return.antt =====
-- Calls and their returns: callScriptFunction and returnFromFunction of cova/vm.go.
use go_lcc.Base.{
  ℕ, zero, suc, ◌+◌, ◌-◌, ◌≡◌, ◌≤◌, ◌<◌, ◌^◌, refl, arith, ap, ◌∙◌, Bool, true, false, ltb, ◌==◌,
  if◌then◌else◌, u32, List, length, get_elem?, set, take, [], ◌∷◌, sym, ◌⊎◌, inl, inr, none, some,
}
use mathlib.Core.Path.{subst, ap₂}
use go_lcc.Base.Int.{ℤ}
use go_lcc.Status.{VmStatus, Result, ok, panic}
use go_lcc.Exec.{Exec, lift, fail_if, continue, ◌>>=◌}
use go_lcc.Exec.Returns.{Reaches, Returns, Returns-pure, Returns-lift, Returns-if, Returns-bind}
use go_lcc.Kinds.{ValueKind, size, is_kind, has_stack_value_kind}
use go_lcc.Program.{LinkedProgram, ScriptFunctionDescriptor}
use go_lcc.Vm.State.{Vm, CallFrame, set_fault, fault_if, stack_of}
use go_lcc.Vm.Call.{
  at_index, loaded_program, check_params, clear_frame, stack_to_frame, pop_args, push_call_frame,
  enter_checked, check_room, enter_in, enter_script_function, call_script_function, check_result,
  return_from_function,
}

-- Nothing but the memory and the fault has changed.
abbrev Same : Vm → Vm → Type 0
Same vm s =
    (s.pc ≡ vm.pc)
    × (s.frame_top ≡ vm.frame_top)
    × (s.call_frame_top ≡ vm.call_frame_top)
    × (s.call_frames ≡ vm.call_frames)

Returns-fault_if :
    {A : Type 0} {P Q : Vm → Type 0} (b : Bool) (c : VmStatus) (x y z : ℤ) (m : Exec Vm A)
    → Returns P Q m
    → Returns P Q (fault_if b c x y z m)
unfolding fault_if set_fault
Returns-fault_if true c x y z m k = record { reaches = λ s h. tt }
Returns-fault_if false c x y z m k = k

-- A look-up whose result is known.
Returns-known :
    {A B : Type 0} {P Q : Vm → Type 0} (k : A → Exec Vm B) (r : Result A) (a : A)
    → r ≡ ok a
    → Returns P Q (k a)
    → Returns P Q (lift r >>= k)
unfolding ◌>>=◌ lift
Returns-known k r a e h = rw e (record { reaches = h.reaches })

module _ (vm : Vm) where
  check_params-Same :
      (p : LinkedProgram) (f : ScriptFunctionDescriptor) (left index bytes : ℕ)
      → Returns (Same vm) (Same vm) (check_params p f left index bytes)
  unfolding check_params
  check_params-Same p f zero index bytes = Returns-pure bytes
  check_params-Same p f (suc left) index bytes = Returns-bind _ _ (Returns-lift _) λ kind.
      Returns-fault_if _ _ _ _ _ _ (
        Returns-bind _ _ (Returns-lift _) λ offset. Returns-fault_if _ _ _ _ _ _ (
          Returns-fault_if _ _ _ _ _ _
            (check_params-Same p f left (index + 1) (bytes + size kind))))

  clear_frame-Same : (base end : ℕ) → Returns (Same vm) (Same vm) (clear_frame base end)
  unfolding clear_frame
  clear_frame-Same base end = record { reaches = λ s h. ground arith }

  stack_to_frame-Same : (offset n : ℕ) → Returns (Same vm) (Same vm) (stack_to_frame offset n)
  unfolding stack_to_frame
  stack_to_frame-Same offset n = record { reaches = λ s h. ground arith }

  pop_args-Same :
      (p : LinkedProgram) (f : ScriptFunctionDescriptor) (base index : ℕ)
      → Returns (Same vm) (Same vm) (pop_args p f base index)
  unfolding pop_args
  pop_args-Same p f base zero = Returns-pure tt
  pop_args-Same p f base (suc index) =
      Returns-bind _ _ (Returns-lift (at_index p.param_kinds (u32 (f.param_start + index)))) λ kind.
        Returns-bind _ _ (Returns-lift (at_index p.param_offsets (u32 (f.param_start + index))))
          λ offset.
            Returns-bind _ _ (stack_to_frame-Same (u32 (base + offset)) (size kind))
              λ _. pop_args-Same p f base index

ltb→either : (a b : ℕ) → ((a < b) × (ltb a b ≡ true)) ⊎ (ltb a b ≡ false)
ltb→either a b = ground arith

get_elem?-set :
    {A : Type 0} (xs : List A) (i : ℕ) (x : A) → i < length xs → get_elem? (set xs i x) i ≡ some x
get_elem?-set [] i x h = absurd (omega arith)
get_elem?-set (y ∷ ys) zero x h = refl
get_elem?-set (y ∷ ys) (suc i) x h = get_elem?-set ys i x (omega arith)

take-set : {A : Type 0} (xs : List A) (i : ℕ) (x : A) → take i (set xs i x) ≡ take i xs
take-set [] i x = refl
take-set (y ∷ ys) zero x = refl
take-set (y ∷ ys) (suc i) x = ap (λ zs. y ∷ zs) (take-set ys i x)

-- The machine has the caller's call frames and one more, which leads back to the caller.
abbrev pub HasFrame : Vm → ValueKind → Vm → Type 0
HasFrame vm kind s =
    (s.call_frame_top ≡ vm.call_frame_top + 1)
    × (vm.call_frame_top < length vm.call_frames)
    × (s.call_frames
        ≡ set vm.call_frames vm.call_frame_top
            (record { return_pc = vm.pc; local_base = vm.frame_top; return_kind = kind }))

module _ (vm : Vm) (small : length vm.call_frames < 2 ^ 32) where
  push_call_frame-HasFrame :
      (end body : ℕ) (kind : ValueKind)
      → Returns (Same vm) (HasFrame vm kind) (
          push_call_frame end
            (record { return_pc = vm.pc; local_base = vm.frame_top; return_kind = kind })
            body)
  unfolding push_call_frame
  push_call_frame-HasFrame end body kind = record {
    reaches = λ s (pc, frame_top, top, frames).
        elim (ltb→either s.call_frame_top (length s.call_frames)) [
          | inl (room, e) ↦ rw e (
            omega (arith, ap (length {A = CallFrame}) frames),
            omega (arith, top, room, ap (length {A = CallFrame}) frames),
            ap₂
                (λ l i.
                  set l i
                    (record { return_pc = vm.pc; local_base = vm.frame_top; return_kind = kind }))
                frames top,
          )
          | inr e ↦ rw e tt
        ];
  }

  enter_checked-HasFrame :
      (p : LinkedProgram) (f : ScriptFunctionDescriptor) (pop : Bool)
      → Returns (Same vm) (HasFrame vm f.return_kind) (enter_checked p f vm.frame_top vm.pc pop)
  unfolding enter_checked
  enter_checked-HasFrame p f pop =
      Returns-bind _ _ (clear_frame-Same vm vm.frame_top (u32 (vm.frame_top + f.frame_byte_size)))
        λ _.
          Returns-bind _ _
            (Returns-if pop _ _ (pop_args-Same vm p f vm.frame_top f.param_count) (Returns-pure tt))
            λ _. push_call_frame-HasFrame _ _ f.return_kind

  check_room-HasFrame :
      (p : LinkedProgram) (f : ScriptFunctionDescriptor) (i bytes : ℕ) (pop : Bool)
      → Returns (Same vm) (HasFrame vm f.return_kind) (check_room p f i bytes vm.pc pop)
  unfolding check_room
  check_room-HasFrame p f i bytes pop = record {
    reaches = λ s h.
        (Returns-fault_if {P = Same vm} _ _ _ _ _ _ (
            Returns-fault_if _ _ _ _ _ _ (
              Returns-fault_if _ _ _ _ _ _ (
                subst
                  (λ base.
                    Returns (Same vm) (HasFrame vm f.return_kind)
                      (enter_checked p f base vm.pc pop))
                  (sym h.1) (enter_checked-HasFrame p f pop))))).reaches
          s h;
  }

  enter_in-HasFrame :
      (p : LinkedProgram) (f : ScriptFunctionDescriptor) (i : ℕ) (pop : Bool)
      → get_elem? p.functions i ≡ some f
      → Returns (Same vm) (HasFrame vm f.return_kind) (enter_in i vm.pc pop p)
  unfolding enter_in
  enter_in-HasFrame p f i pop e =
      let found : at_index p.functions i ≡ ok f =
        unfold at_index in ap (λ o. elim o [ none ↦ panic | some x ↦ ok x ]) e in
      Returns-fault_if _ _ _ _ _ _ (
        Returns-known _ _ f found (
          Returns-fault_if _ _ _ _ _ _ (
            Returns-fault_if _ _ _ _ _ _ (
              Returns-bind _ _ (check_params-Same vm p f f.param_count 0 0)
                λ bytes. check_room-HasFrame p f i bytes pop))))

  -- A call that succeeds leaves the frame of its return.
  pub call_script_function-HasFrame :
      (p : LinkedProgram) (f : ScriptFunctionDescriptor) (i : ℕ)
      → vm.program ≡ some p
      → get_elem? p.functions i ≡ some f
      → Reaches (HasFrame vm f.return_kind) (call_script_function i vm)
  unfolding call_script_function enter_script_function lift ◌>>=◌
  call_script_function-HasFrame p f i e ef =
      let loaded : loaded_program vm ≡ ok p =
        unfold loaded_program in ap (λ o. elim o [ none ↦ panic | some q ↦ ok q ]) e in
      subst
        (λ r. Reaches (HasFrame vm f.return_kind) (continue r (λ q. enter_in i vm.pc true q) vm))
        (sym loaded) ((enter_in-HasFrame p f i true ef).reaches vm (refl, refl, refl, refl))

-- The return kind of a function of the compiler: none, or one that has a size.
check_result-passes :
    (kind : ValueKind) (n : ℕ) (m : Exec Vm Bool)
    → is_kind kind ≡ true
    → size kind ≤ n
    → check_result kind n m ≡ m
unfolding has_stack_value_kind size is_kind fail_if
check_result-passes (ValueKind.other n) k m h r = cc
check_result-passes kind k m h r = ground arith

return_to-frame :
    (vm s : Vm) (kind : ValueKind)
    → is_kind kind ≡ true
    → size kind ≤ (stack_of s).len
    → HasFrame vm kind s
    → return_from_function s ≡ (
        if vm.call_frame_top == 0
        then (ok true, record s { call_frame_top = vm.call_frame_top; frame_top = vm.frame_top })
        else (
          ok false,
          record s { call_frame_top = vm.call_frame_top; frame_top = vm.frame_top; pc = vm.pc },
        ))
unfolding return_from_function ◌>>=◌ lift
return_to-frame vm s kind named room (top, lt, frames) =
    let back : CallFrame = record {
      return_pc = vm.pc;
      local_base = vm.frame_top;
      return_kind = kind;
    } in
    let frame : get_elem? s.call_frames vm.call_frame_top ≡ some back =
      ap (λ l. get_elem? l vm.call_frame_top) frames
      ∙ get_elem?-set vm.call_frames vm.call_frame_top back lt in
    let some_frame : (s.call_frame_top == 0) ≡ false = ground arith in
    let one_less : s.call_frame_top - 1 ≡ vm.call_frame_top = omega arith in
    let found : at_index s.call_frames vm.call_frame_top
        ≡ ok (record { return_pc = vm.pc; local_base = vm.frame_top; return_kind = kind }) =
      unfold at_index in ap (λ o. elim o [ none ↦ panic | some x ↦ ok x ]) frame in
    rw (some_frame, one_less, found)
      (rw (check_result-passes kind (stack_of s).len _ named room) (ground arith))

-- On a machine that has fewer than 2 ^ 32 call frames in all, a call of a script function of the loaded
-- program that succeeds, and a return from any later state whose call frames are
-- as the call left them and whose stack has room for the result, of a named kind: the return ends the
-- run where the caller had no frame, and otherwise takes the machine back to the instruction behind
-- the call, with the caller's top of the frame segment and its number of call frames in use, and each
-- of these call frames is the one that the caller had there.
pub return_from_function-call_script_function :
    (vm called s : Vm) (p : LinkedProgram) (f : ScriptFunctionDescriptor) (i : ℕ)
    → length vm.call_frames < 2 ^ 32
    → vm.program ≡ some p
    → get_elem? p.functions i ≡ some f
    → is_kind f.return_kind ≡ true
    → call_script_function i vm ≡ (ok tt, called)
    → s.call_frames ≡ called.call_frames
    → s.call_frame_top ≡ called.call_frame_top
    → size f.return_kind ≤ (stack_of s).len
    → (return_from_function s ≡ (
        if vm.call_frame_top == 0
        then (ok true, record s { call_frame_top = vm.call_frame_top; frame_top = vm.frame_top })
        else (
          ok false,
          record s { call_frame_top = vm.call_frame_top; frame_top = vm.frame_top; pc = vm.pc },
        )))
      × (take vm.call_frame_top s.call_frames ≡ take vm.call_frame_top vm.call_frames)
return_from_function-call_script_function vm called s p f i small e ef named done frames top room =
    let (one_more, lt, pushed) : HasFrame vm f.return_kind called =
      subst (Reaches (HasFrame vm f.return_kind)) done
        (call_script_function-HasFrame vm small p f i e ef) in
    (
      return_to-frame vm s f.return_kind named room (top ∙ one_more, lt, frames ∙ pushed),
      ap (take vm.call_frame_top) (frames ∙ pushed) ∙ take-set vm.call_frames vm.call_frame_top _,
    )
