-- ===== src/Vm/Safety/Whole.antt =====
-- Whole runs (Run and RunLoaded of cova/vm.go), from a machine that is new or sound.
use go_lcc.Base.{ℕ, ◌^◌, ◌<◌, ◌≡◌, refl, Option, none, some}
use mathlib.Core.Path.{subst, sym}
use go_lcc.Status.{Result, ok, err, panic, NoPanic}
use go_lcc.Program.{LinkedProgram}
use go_lcc.Vm.State.{Vm, VmConfig, new_vm_with_config}
use go_lcc.Vm.FloatOps.{Floats}
use go_lcc.Vm.Call.{Dispatcher}
use go_lcc.Vm.Load.{load_program, reset, run_program, after_reset, run_loaded, after_load, run}
use go_lcc.Vm.Safety.Invariant.{Layout, IsSound}
use go_lcc.Vm.Safety.Call.{HostSafe}
use go_lcc.Vm.Safety.Run.{EndsSound, run_loop-Sound}
use go_lcc.Vm.Safety.Load.{
  at_least_one, layout, new_vm_with_config-IsReady, load_program-NoPanic, load_program-IsSound,
  reset-Good,
}

module _ (l : Layout) (fl : Floats) (host : Option Dispatcher) (h : HostSafe l host) where
  after_reset-Sound :
      (fuel : ℕ) (r : Result (Unit {0})) (vm : Vm)
      → IsSound l vm
      → NoPanic r
      → EndsSound l (after_reset fl host fuel (r, vm))
  after_reset-Sound fuel (ok a) vm s n =
      subst (λ p. EndsSound l (run_program fl host fuel p vm)) (sym s.loaded)
        (run_loop-Sound l fl host h fuel l.program vm s)
  after_reset-Sound fuel (err c) vm s n = (s, tt)
  after_reset-Sound fuel panic vm s n = absurd n

  run_loaded-EndsSound :
      (fuel : ℕ) (vm : Vm) → IsSound l vm → EndsSound l (run_loaded fl host fuel vm)
  unfolding run_loaded
  run_loaded-EndsSound fuel vm s =
      let (s', n) = reset-Good l vm s in after_reset-Sound fuel (reset vm).0 (reset vm).1 s' n

-- A run of a sound machine, in any number of rounds, that ends: the machine is sound for the same
-- layout, so its constants are those of the program, and the run did not panic. The host's
-- dispatcher must keep sound states itself.
pub run_loaded-IsSound :
    (l : Layout) (fl : Floats) (host : Option Dispatcher) (fuel : ℕ) (vm vm' : Vm)
    (r : Result (Unit {0}))
    → HostSafe l host
    → IsSound l vm
    → run_loaded fl host fuel vm ≡ some (r, vm')
    → IsSound l vm' × NoPanic r
run_loaded-IsSound l fl host fuel vm vm' r h s e =
    subst (EndsSound l) e (run_loaded-EndsSound l fl host h fuel vm s)

-- What a run gives has no panic.
abbrev EndsWell : Option (Result (Unit {0}) × Vm) → Type 0
EndsWell none = Unit
EndsWell (some (r, vm)) = NoPanic r

forget : (l : Layout) (o : Option (Result (Unit {0}) × Vm)) → EndsSound l o → EndsWell o
forget l none h = tt
forget l (some (r, vm)) h = h.1

module _ (fl : Floats) (host : Option Dispatcher) where
  after_load-EndsWell :
      (l : Layout) (fuel : ℕ) (r : Result (Unit {0})) (vm : Vm)
      → HostSafe l host
      → NoPanic r
      → (r ≡ ok tt → IsSound l vm)
      → EndsWell (after_load fl host fuel (r, vm))
  after_load-EndsWell l fuel (ok a) vm h n s =
      forget l _ (run_loaded-EndsSound l fl host h fuel vm (s refl))
  after_load-EndsWell l fuel (err c) vm h n s = tt
  after_load-EndsWell l fuel panic vm h n s = absurd n

-- A run of any program on a new machine, of any configuration whose capacities have 32 bits, does not
-- panic: it fails, ends or goes on. The host's dispatcher must keep the states that are sound for the
-- machine's capacities and the program, and not panic on them.
pub run-NoPanic :
    (config : VmConfig) (fl : Floats) (host : Option Dispatcher) (fuel : ℕ) (p : LinkedProgram)
    (vm : Vm) (r : Result (Unit {0}))
    → config.frame_capacity < 2 ^ 32
    → config.stack_capacity < 2 ^ 32
    → config.call_frame_capacity < 2 ^ 32
    → HostSafe
        (layout config.stack_capacity config.frame_capacity
          (at_least_one config.call_frame_capacity)
          p)
        host
    → run fl host fuel (some p) (new_vm_with_config config) ≡ some (r, vm)
    → NoPanic r
unfolding run
run-NoPanic config fl host fuel p vm r hf hs hc h e =
    let new : Vm = new_vm_with_config config in
    let sc = config.stack_capacity in
    let fc = config.frame_capacity in
    let cc = at_least_one config.call_frame_capacity in
    subst EndsWell e (
      after_load-EndsWell fl host (layout sc fc cc p) fuel (load_program (some p) new).0
        (load_program (some p) new).1 h (load_program-NoPanic sc fc cc p new)
        (load_program-IsSound sc fc cc p new (new_vm_with_config-IsReady config hf hs hc)))
