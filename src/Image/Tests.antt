-- ===== src/Image/Tests.antt =====
-- An image of a program of two functions, and its reading.
use go_lcc.Base.{◌≡◌, refl, some, [], ◌∷◌, replicate}
use go_lcc.Status.{Result, ok}
use go_lcc.Kinds.{ValueKind}
use go_lcc.Symbols.{ProgramSymbols}
use go_lcc.Program.{LinkedProgram}
use go_lcc.Image.{ProgramImage, linked_program_to_image, linked_program_from_image}
use go_lcc.Base.{arith, length}
use go_lcc.Vm.State.{new_vm}
use go_lcc.Vm.Load.{load_program}
use go_lcc.Image.Load.{load_program-linked_program_from_image}
use go_lcc.Base.{none, false}
use go_lcc.Base.Int.{pos}
use go_lcc.Vm.FloatOps.{FloatFormat, Floats}
use go_lcc.Vm.Load.{run}
use go_lcc.Image.Blob.{ImageCodec, build_program_image, run_image, run_image-build_program_image}
use go_lcc.Image.Laws.{linked_program_from_image-linked_program_to_image}

abbrev no_symbols : ProgramSymbols
no_symbols = record {
  symbols = [];
  extern_symbols = [];
  bss_symbols = [];
  data_symbols = [];
  const_symbols = [];
}

abbrev two_functions : LinkedProgram
two_functions = record {
  text = replicate 20 0;
  entry_point = 0;
  functions =
      record {
        body_address = 0;
        param_start = 0;
        param_count = 0;
        frame_byte_size = 8;
        return_kind = ValueKind.void;
      }
      ∷ record {
        body_address = 12;
        param_start = 0;
        param_count = 1;
        frame_byte_size = 4;
        return_kind = ValueKind.int32;
      }
      ∷ [];
  param_kinds = ValueKind.int32 ∷ [];
  param_offsets = 0 ∷ [];
  frame_size = 2;
  frame_byte_size = 8;
  const_byte_size = 3;
  const_data = 7 ∷ 8 ∷ 9 ∷ [];
  data_byte_size = 0;
  data_data = [];
  bss_size = 1;
  bss_byte_size = 4;
  debug_symbols = some no_symbols;
}

abbrev image_or : ProgramImage → Result ProgramImage → ProgramImage
image_or other (ok image) = image
image_or other _ = other

abbrev no_image : ProgramImage
no_image = record {
  magic = 0;
  version = 0;
  endian = 0;
  abi = 0;
  entry_point = 0;
  bss_byte_size = 0;
  frame_size = 0;
  frame_byte_size = 0;
  functions = [];
  param_kinds = [];
  param_offsets = [];
  text = [];
  const_data = [];
  data_data = [];
}

two_image : ProgramImage
unfolding linked_program_to_image
two_image = image_or no_image (linked_program_to_image (some two_functions))

has_image : linked_program_to_image (some two_functions) ≡ ok two_image
unfolding two_image
has_image = refl

linked_program_from_image-linked_program_to_image_example :
    linked_program_from_image (some two_image)
    ≡ ok (record two_functions { bss_size = 0; debug_symbols = none })
linked_program_from_image-linked_program_to_image_example =
    linked_program_from_image-linked_program_to_image two_functions two_image has_image

read_back :
    linked_program_from_image (some two_image)
    ≡ ok (record two_functions { bss_size = 0; debug_symbols = none })
unfolding two_image linked_program_from_image
read_back = refl

image_lengths :
    (length two_image.text ≡ 20)
    × (length two_image.const_data ≡ 3)
    × (length two_image.data_data ≡ 0)
unfolding two_image
image_lengths = (refl, refl, refl)

load_program-linked_program_from_image_example :
    (load_program
      (some (record two_functions { bss_size = 0; debug_symbols = none }))
      (new_vm 64)).0
    ≡ ok tt
load_program-linked_program_from_image_example =
    load_program-linked_program_from_image two_image
      (record two_functions { bss_size = 0; debug_symbols = none }) (new_vm 64)
      (omega (arith, image_lengths.0)) (omega (arith, image_lengths.1))
      (omega (arith, image_lengths.2)) read_back

-- A library that knows one image, by one byte.
one_codec : ImageCodec
unfolding two_image
one_codec = record { write = λ image. some (1 ∷ []); read = λ blob. some two_image }

abbrev no_format : FloatFormat
no_format = record {
  add = λ a b. a;
  sub = λ a b. a;
  mul = λ a b. a;
  div = λ a b. a;
  is_zero = λ a. false;
  eq = λ a b. false;
  lt = λ a b. false;
  le = λ a b. false;
  of_int = λ z. 0;
  to_int = λ t a. pos a;
}

abbrev no_floats : Floats
no_floats = record {
  f32 = no_format;
  f64 = no_format;
  widen = λ a. a;
  narrow = λ a. a;
  apply = λ op a. a;
  pow = λ a b. a;
}

run_image-build_program_image_example :
    (build_program_image one_codec (some two_functions) ≡ ok (1 ∷ []))
    × (run_image one_codec no_floats none 5 (1 ∷ []) (new_vm 64)
        ≡ run no_floats none 5
            (some (record two_functions { bss_size = 0; debug_symbols = none }))
            (new_vm 64))
unfolding one_codec
run_image-build_program_image_example =
    run_image-build_program_image one_codec no_floats none 5 two_functions two_image (1 ∷ [])
      (new_vm 64) has_image refl refl
