-- ===== src/Image/Load.antt =====
-- LoadProgram of cova/vm.go on a program that was read from an image.
use go_lcc.Base.{◌≡◌, ◌≤◌, arith, u32_max, length, some}
use mathlib.Core.Path.{subst}
use go_lcc.Status.{Result, ok, err, panic}
use go_lcc.Exec.{modify}
use go_lcc.Program.{LinkedProgram}
use go_lcc.Vm.State.{Vm, fault_if}
use go_lcc.Vm.Load.{load_program}
use go_lcc.Image.{ProgramImage, validate_program_image, linked_program_from_image}
use go_lcc.Image.Laws.{Holds, and_then-Holds}

any_result : (r : Result (Unit {0})) → Holds (λ _. Unit {0}) r
any_result (ok a) = tt
any_result (err c) = tt
any_result panic = tt

module _ (image : ProgramImage) (vm : Vm) (ht : length image.text ≤ u32_max)
    (hc : length image.const_data ≤ u32_max) (hd : length image.data_data ≤ u32_max) where
  from_image-loads :
      Holds (λ p. (load_program (some p) vm).0 ≡ ok tt) (linked_program_from_image (some image))
  unfolding linked_program_from_image load_program modify fault_if
  from_image-loads =
      and_then-Holds (λ _. Unit {0}) _ (validate_program_image (some image)) _ (any_result _)
        λ _ _ _. ground arith

-- A program that is read from an image whose code, constants and data have lengths of 32 bits is
-- loaded by any machine, whatever its capacities.
pub load_program-linked_program_from_image :
    (image : ProgramImage) (p : LinkedProgram) (vm : Vm)
    → length image.text ≤ u32_max
    → length image.const_data ≤ u32_max
    → length image.data_data ≤ u32_max
    → linked_program_from_image (some image) ≡ ok p
    → (load_program (some p) vm).0 ≡ ok tt
load_program-linked_program_from_image image p vm ht hc hd e =
    subst (Holds (λ q. (load_program (some q) vm).0 ≡ ok tt)) e (from_image-loads image vm ht hc hd)
