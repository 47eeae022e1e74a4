-- ===== src/Image.antt =====
-- cova/image.go: the program image, its validation, and the conversions between an image and a linked
-- program. The bytes of an image are written and read by a third-party library.
pub mod Laws
pub mod Load
pub mod Blob
mod Tests
use go_lcc.Base.{
  ℕ, ◌+◌, ◌-◌, ◌*◌, ◌^◌, Bool, true, false, not, ltb, leb, ◌==◌, ◌||◌, if◌then◌else◌, u32, length,
  List, [], ◌∷◌, map, Option, none, some,
}
use go_lcc.Status.{
  VmStatus, Result, ok, err, panic, invalid_program, invalid_image, unsupported_image,
  invalid_parameter, invalid_target, invalid_descriptor,
}
use go_lcc.Kinds.{ValueKind, kind_byte, kind_of_byte, is_kind}
use go_lcc.Program.{LinkedProgram, ScriptFunctionDescriptor}

-- ProgramImageMagic: the letters COVA.
abbrev pub image_magic : ℕ
image_magic = 67 + 79 * 2 ^ 8 + 86 * 2 ^ 16 + 65 * 2 ^ 24

abbrev pub image_version : ℕ
image_version = 3

abbrev pub image_endian_little : ℕ
image_endian_little = 1

abbrev pub image_abi : ℕ
image_abi = 1

-- The return kind is a byte.
pub record ProgramImageFunction : Type 0 where
  pub body_address : ℕ
  pub param_start : ℕ
  pub param_count : ℕ
  pub frame_byte_size : ℕ
  pub return_kind : ℕ
  pub reserved0 : ℕ
  pub reserved1 : ℕ
  pub reserved2 : ℕ

pub record ProgramImage : Type 0 where
  pub magic : ℕ
  pub version : ℕ
  pub endian : ℕ
  pub abi : ℕ
  pub entry_point : ℕ
  pub bss_byte_size : ℕ
  pub frame_size : ℕ
  pub frame_byte_size : ℕ
  pub functions : List ProgramImageFunction
  pub param_kinds : List ℕ
  pub param_offsets : List ℕ
  pub text : List ℕ
  pub const_data : List ℕ
  pub data_data : List ℕ

-- if test { return status }
abbrev pub reject_if : {A : Type 0} → Bool → VmStatus → Result A → Result A
reject_if true status r = err status
reject_if false status r = r

abbrev pub and_then : {A B : Type 0} → Result A → (A → Result B) → Result B
and_then (ok a) k = k a
and_then (err c) k = err c
and_then panic k = panic

-- The loop over the parameter kinds, and what follows it.
unfoldable pub validate_kinds : List ℕ → Result (Unit {0})
unfolding kind_of_byte is_kind
validate_kinds [] = ok tt
validate_kinds (kind ∷ kinds) =
    reject_if (not (is_kind (kind_of_byte kind))) invalid_parameter (validate_kinds kinds)

-- The checks of one function.
unfoldable pub validate_function :
    ProgramImage → ProgramImageFunction → Result (Unit {0}) → Result (Unit {0})
unfolding kind_of_byte is_kind
validate_function image f rest =
    reject_if (not (is_kind (kind_of_byte f.return_kind))) invalid_descriptor (
      reject_if (leb (u32 (length image.text)) f.body_address) invalid_descriptor (
        reject_if (ltb (u32 (length image.param_kinds)) f.param_start) invalid_parameter (
          reject_if (ltb (u32 (length image.param_kinds) - f.param_start) f.param_count)
            invalid_parameter
            (reject_if (ltb image.frame_size (u32 (f.param_start + f.param_count)))
              invalid_parameter
              (reject_if (ltb image.frame_byte_size f.frame_byte_size) invalid_descriptor rest)))))

unfoldable pub validate_functions : ProgramImage → List ProgramImageFunction → Result (Unit {0})
unfolding validate_function
validate_functions image [] = ok tt
validate_functions image (f ∷ fs) = validate_function image f (validate_functions image fs)

-- validateProgramImage; `none` is a nil image.
unfoldable pub validate_program_image : Option ProgramImage → Result (Unit {0})
unfolding validate_kinds validate_functions
validate_program_image none = err invalid_program
validate_program_image (some image) = reject_if (not (image.magic == image_magic)) invalid_image (
    reject_if (not (image.version == image_version)) unsupported_image (
      reject_if (not (image.endian == image_endian_little) || not (image.abi == image_abi))
        unsupported_image
        (reject_if (not (length image.param_kinds == length image.param_offsets)) invalid_parameter
          (reject_if (leb (length image.functions) image.entry_point) invalid_target (
            and_then (validate_kinds image.param_kinds)
              λ _. validate_functions image image.functions)))))

-- imageParamKindsFromKinds
unfoldable pub image_param_kinds_from_kinds : List ValueKind → Result (List ℕ)
unfolding is_kind kind_byte
image_param_kinds_from_kinds [] = ok []
image_param_kinds_from_kinds (kind ∷ kinds) =
    reject_if (not (is_kind kind)) invalid_parameter
      (and_then (image_param_kinds_from_kinds kinds) λ bytes. ok (kind_byte kind ∷ bytes))

-- imageFunctionFromDescriptor
unfoldable pub image_function_from_descriptor :
    ScriptFunctionDescriptor → Result ProgramImageFunction
unfolding is_kind kind_byte
image_function_from_descriptor f = reject_if (not (is_kind f.return_kind)) invalid_descriptor (
    ok (record {
      body_address = f.body_address;
      param_start = f.param_start;
      param_count = f.param_count;
      frame_byte_size = f.frame_byte_size;
      return_kind = kind_byte f.return_kind;
      reserved0 = 0;
      reserved1 = 0;
      reserved2 = 0;
    }))

-- The loop over the functions.
unfoldable pub image_functions : List ScriptFunctionDescriptor → Result (List ProgramImageFunction)
unfolding image_function_from_descriptor
image_functions [] = ok []
image_functions (f ∷ fs) =
    and_then (image_function_from_descriptor f) λ g. and_then (image_functions fs) λ gs. ok (g ∷ gs)

abbrev pub image_of : LinkedProgram → List ProgramImageFunction → List ℕ → ProgramImage
image_of p functions param_kinds = record {
  magic = image_magic;
  version = image_version;
  endian = image_endian_little;
  abi = image_abi;
  entry_point = p.entry_point;
  bss_byte_size = p.bss_byte_size;
  frame_size = p.frame_size;
  frame_byte_size = p.frame_byte_size;
  functions = functions;
  param_kinds = param_kinds;
  param_offsets = p.param_offsets;
  text = p.text;
  const_data = p.const_data;
  data_data = p.data_data;
}

-- linkedProgramToImage; `none` is a nil program.
unfoldable pub linked_program_to_image : Option LinkedProgram → Result ProgramImage
unfolding image_functions image_param_kinds_from_kinds validate_program_image
linked_program_to_image none = err invalid_program
linked_program_to_image (some p) =
    reject_if (not (p.const_byte_size == u32 (length p.const_data))) invalid_image (
      reject_if (not (p.data_byte_size == u32 (length p.data_data))) invalid_image (
        reject_if (leb (u32 (length p.functions)) p.entry_point) invalid_descriptor (
          and_then (image_functions p.functions) λ functions.
            and_then (image_param_kinds_from_kinds p.param_kinds) λ param_kinds.
              and_then (validate_program_image (some (image_of p functions param_kinds)))
                λ _. ok (image_of p functions param_kinds))))

abbrev pub descriptor_of : ProgramImageFunction → ScriptFunctionDescriptor
descriptor_of f = record {
  body_address = f.body_address;
  param_start = f.param_start;
  param_count = f.param_count;
  frame_byte_size = f.frame_byte_size;
  return_kind = kind_of_byte f.return_kind;
}

-- linkedProgramFromImage, which leaves BSSSize at 0 and DebugSymbols nil.
unfoldable pub linked_program_from_image : Option ProgramImage → Result LinkedProgram
unfolding validate_program_image kind_of_byte
linked_program_from_image none = err invalid_program
linked_program_from_image (some image) = and_then (validate_program_image (some image)) λ _.
    ok (record {
      text = image.text;
      entry_point = image.entry_point;
      functions = map descriptor_of image.functions;
      param_kinds = map kind_of_byte image.param_kinds;
      param_offsets = image.param_offsets;
      frame_size = image.frame_size;
      frame_byte_size = image.frame_byte_size;
      const_byte_size = u32 (length image.const_data);
      const_data = image.const_data;
      data_byte_size = u32 (length image.data_data);
      data_data = image.data_data;
      bss_size = 0;
      bss_byte_size = image.bss_byte_size;
      debug_symbols = none;
    })
