-- ===== src/Image/Blob.antt =====
-- cova/image.go and cova/vm.go: an image as bytes. The library that writes an image to bytes and reads
-- it from bytes is the parameter `codec`; `none` is an error of it.
use go_lcc.Base.{ℕ, ◌≡◌, refl, ap, sym, ◌∙◌, List, Option, none, some}
use go_lcc.Base.Int.{minus_one}
use go_lcc.Status.{Result, ok, err, panic, invalid_image}
use go_lcc.Exec.{Exec}
use go_lcc.Program.{LinkedProgram}
use go_lcc.Vm.State.{Vm, clear_fault, set_fault}
use go_lcc.Vm.FloatOps.{Floats}
use go_lcc.Vm.Call.{Dispatcher}
use go_lcc.Vm.Load.{load_program, run_loaded, after_load, run}
use go_lcc.Image.{
  ProgramImage, and_then, validate_program_image, linked_program_to_image,
  linked_program_from_image,
}
use go_lcc.Image.Laws.{linked_program_from_image-linked_program_to_image}

-- codestream.WriteToStream and codestream.ReadFromStream
pub record ImageCodec : Type 0 where
  pub write : ProgramImage → Option (List ℕ)
  pub read : List ℕ → Option ProgramImage

abbrev or_invalid : {A : Type 0} → Option A → Result A
or_invalid none = err invalid_image
or_invalid (some a) = ok a

abbrev pub load_read : Result LinkedProgram → Exec Vm (Unit {0})
load_read (ok p) vm = load_program (some p) vm
load_read (err status) vm = set_fault status minus_one minus_one minus_one vm
load_read panic vm = (panic, vm)

module _ (codec : ImageCodec) where
  -- BuildProgramImage
  unfoldable pub build_program_image : Option LinkedProgram → Result (List ℕ)
  unfolding linked_program_to_image
  build_program_image p =
      and_then (linked_program_to_image p) λ image. or_invalid (codec.write image)

  -- OpenProgramImage
  unfoldable pub open_program_image : List ℕ → Result ProgramImage
  unfolding validate_program_image
  open_program_image blob =
      and_then (or_invalid (codec.read blob))
        λ image. and_then (validate_program_image (some image)) λ _. ok image

  -- LoadProgramImage
  unfoldable pub load_program_image : List ℕ → Exec Vm (Unit {0})
  unfolding open_program_image linked_program_from_image load_program set_fault clear_fault
  load_program_image blob vm =
      load_read (and_then (open_program_image blob) λ image. linked_program_from_image (some image))
        (clear_fault vm)

  -- RunImage
  unfoldable pub run_image :
      Floats → Option Dispatcher → ℕ → List ℕ → Vm → Option (Result (Unit {0}) × Vm)
  unfolding load_program_image run_loaded
  run_image fl host fuel blob vm = after_load fl host fuel (load_program_image blob vm)

validated-twice :
    {A B : Type 0} (r : Result (Unit {0})) (a : A) (k : A → Result B) (b : B)
    → k a ≡ and_then r (λ _. ok b)
    → and_then (and_then r λ _. ok a) k ≡ k a
validated-twice (ok u) a k b e = refl
validated-twice (err c) a k b e = sym e
validated-twice panic a k b e = sym e

-- A program whose image is written to bytes, and read from them by the same library: the build gives
-- those bytes, and a run of them is a run of the program, but for the number of slots of its BSS
-- segment and its debug symbols, which no image holds.
pub run_image-build_program_image :
    (codec : ImageCodec) (fl : Floats) (host : Option Dispatcher) (fuel : ℕ) (p : LinkedProgram)
    (image : ProgramImage) (blob : List ℕ) (vm : Vm)
    → linked_program_to_image (some p) ≡ ok image
    → codec.write image ≡ some blob
    → codec.read blob ≡ some image
    → (build_program_image codec (some p) ≡ ok blob)
      × (run_image codec fl host fuel blob vm
          ≡ run fl host fuel (some (record p { bss_size = 0; debug_symbols = none })) vm)
unfolding build_program_image run_image load_program_image open_program_image run load_program
    clear_fault
run_image-build_program_image codec fl host fuel p image blob vm to written read =
    let back : linked_program_from_image (some image)
        ≡ ok (record p { bss_size = 0; debug_symbols = none }) =
      linked_program_from_image-linked_program_to_image p image to in
    let twice =
      validated-twice (validate_program_image (some image)) image
        (λ i. linked_program_from_image (some i)) _ (unfold linked_program_from_image in refl) in
    (
      ap (λ r. and_then r λ i. or_invalid (codec.write i)) to ∙ ap or_invalid written,
      ap
            (λ o. after_load fl host fuel (
              load_read
                (and_then
                  (and_then (or_invalid o)
                    λ i. and_then (validate_program_image (some i)) λ _. ok i)
                  (λ i. linked_program_from_image (some i)))
                (clear_fault vm)))
            read
          ∙ ap (λ r. after_load fl host fuel (load_read r (clear_fault vm))) (twice ∙ back),
    )
