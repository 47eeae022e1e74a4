-- ===== src/Vm/Safety/Frames.antt =====
-- The parts of a call in cova/vm.go: the new frame's bytes, the arguments and the call frame.
use go_lcc.Base.{
  ℕ, zero, suc, ◌+◌, ◌-◌, ◌≤◌, ◌<◌, ◌≡◌, refl, arith, ◌∙◌, List, length, ltb, leb, true, ◌&&◌, u32,
  get_elem?-some, length-set, length-splice, replicate,
}
use go_lcc.Status.{NoPanic}
use go_lcc.Exec.Safe.{Safe, Safe-bind, Safe-pure, Safe-lift}
use go_lcc.Kinds.{size}
use go_lcc.Program.{LinkedProgram, ScriptFunctionDescriptor}
use go_lcc.Segment.Safe.{truncate_to-Safe, truncate_to-len}
use go_lcc.Memory.{update, segment_frame}
use go_lcc.Vm.State.{Vm, CallFrame, stack_of, frame_of}
use go_lcc.Vm.Call.{at_index, clear_frame, stack_to_frame, pop_args, push_call_frame}
use go_lcc.Vm.Safety.Invariant.{Layout, IsSound, Sound-update}

pub at_index-NoPanic : {A : Type 0} (xs : List A) (i : ℕ) → i < length xs → NoPanic (at_index xs i)
unfolding at_index
at_index-NoPanic xs i h = let (x, e) = get_elem?-some xs i h in ground (arith, e)

-- The machine with a given number of call frames in use.
abbrev pub AtTop : Layout → ℕ → Vm → Type 0
AtTop l t vm = IsSound l vm × (vm.call_frame_top ≡ t)

module _ (l : Layout) (t : ℕ) where
  pub clear_frame-Safe :
      (base end : ℕ) → base ≤ end → end ≤ l.frame_capacity → Safe (AtTop l t) (clear_frame base end)
  unfolding clear_frame update
  clear_frame-Safe base end h k = record {
    keeps = λ vm (s, top).
        let test : (leb base end && leb end (length (frame_of vm).array)) ≡ true =
          ground (arith, s.frame.backed) in
        rw test (
          Sound-update l segment_frame vm _ (omega arith)
              (refl, length-splice (frame_of vm).array base (replicate (end - base) 0)) s,
          top,
        );
    no_panic = λ vm (s, top). ground (arith, s.frame.backed);
  }

  pub stack_to_frame-Safe : (offset n : ℕ) → Safe (AtTop l t) (stack_to_frame offset n)
  unfolding stack_to_frame update
  stack_to_frame-Safe offset n = record {
    keeps = λ vm (s, top).
        let both =
          (truncate_to-Safe l.stack_capacity l.frame_capacity offset n).keeps
            (stack_of vm, frame_of vm) (s.stack, s.frame) in
        let kept = truncate_to-len offset n (stack_of vm) (frame_of vm) in
        (
          record {
            stack = both.0;
            frame = both.1;
            frame_full = kept ∙ s.frame_full;
            backed = λ i.
                ground
                  (arith, s.backed i, both.0.within, both.0.backed, both.1.within, both.1.backed);
            constant = s.constant;
            call_frames = s.call_frames;
            call_top = s.call_top;
            call_small = s.call_small;
            loaded = s.loaded;
          },
          top,
        );
    no_panic = λ vm (s, top).
        (truncate_to-Safe l.stack_capacity l.frame_capacity offset n).no_panic
          (stack_of vm, frame_of vm) (s.stack, s.frame);
  }

  -- The parameters lie in both tables.
  abbrev pub InTables : LinkedProgram → ScriptFunctionDescriptor → Type 0
  InTables p f =
      (f.param_start + f.param_count ≤ length p.param_kinds)
      × (f.param_start + f.param_count ≤ length p.param_offsets)

  pub pop_args-Safe :
      (p : LinkedProgram) (f : ScriptFunctionDescriptor) (local_base index : ℕ)
      → InTables p f
      → index ≤ f.param_count
      → Safe (AtTop l t) (pop_args p f local_base index)
  unfolding pop_args
  pop_args-Safe p f local_base zero h k = Safe-pure tt
  pop_args-Safe p f local_base (suc index) (hk, ho) k =
      Safe-bind _ _
        (Safe-lift _ (at_index-NoPanic p.param_kinds (u32 (f.param_start + index)) (omega arith)))
        λ kind.
          Safe-bind _ _
            (Safe-lift _
              (at_index-NoPanic p.param_offsets (u32 (f.param_start + index)) (omega arith)))
            λ offset.
              Safe-bind _ _ (stack_to_frame-Safe (u32 (local_base + offset)) (size kind))
                λ _. pop_args-Safe p f local_base index (hk, ho) (omega arith)

  pub push_call_frame-IsSound :
      (frame_end : ℕ) (frame : CallFrame) (body : ℕ) (vm : Vm)
      → t < l.call_capacity
      → AtTop l t vm
      → IsSound l (push_call_frame frame_end frame body vm).1
        × NoPanic (push_call_frame frame_end frame body vm).0
  unfolding push_call_frame
  push_call_frame-IsSound frame_end frame body vm room (s, top) =
      let test : ltb vm.call_frame_top (length vm.call_frames) ≡ true =
        ground (arith, s.call_frames) in
      rw test (
        record {
          stack = s.stack;
          frame = s.frame;
          frame_full = s.frame_full;
          backed = s.backed;
          constant = s.constant;
          call_frames = length-set vm.call_frames vm.call_frame_top frame ∙ s.call_frames;
          call_top = omega (arith, s.call_small);
          call_small = s.call_small;
          loaded = s.loaded;
        },
        tt,
      )
