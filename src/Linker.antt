-- ===== src/Linker.antt =====
-- cova/link.go: the linker, and the compiled program of cova/types.go that it reads.
pub mod Descriptors
pub mod Whole
pub mod Script
pub mod Layout
pub mod Calls
mod Tests
use Prim.Native.String.{String}
use go_lcc.Base.{
  ℕ, ◌+◌, ◌%◌, ◌^◌, Bool, true, false, ◌||◌, ◌&&◌, not, ◌==◌, ltb, leb, if◌then◌else◌, u32, Option,
  none, some, List, [], ◌∷◌, ◌++◌, length, get_elem?,
}
use go_lcc.Base.Int.{ℤ, pos, ltb_ℤ, leb_ℤ}
use go_lcc.Outcome.{Outcome, done, failed, panic, ◌>>=◌, fail_if}
use go_lcc.Status.{Result, ok, err, panic}
use go_lcc.Kinds.{ValueKind, has_stack_value_kind}
use go_lcc.Types.{LangType, value_kind_from_type}
use go_lcc.Ast.{DeclKind, ScopeKind, AstProgram}
use go_lcc.Code.{CodeMemory, patch_uint32}
use go_lcc.Symbols.{SymbolBinding, ProgramSymbols, copy_program_symbols}
use go_lcc.Program.{ScriptFunctionDescriptor, LinkedProgram}

pub record CallPatch : Type 0 where
  pub operand_pos : ℕ
  pub temp_func_id : ℕ
  pub line : ℕ

pub record RelocatableProgram : Type 0 where
  pub text : CodeMemory
  pub program_symbols : Option ProgramSymbols
  pub functions : List SymbolBinding
  pub call_patches : List CallPatch
  pub used_external_function_ids : List ℕ
  pub entry_function : ℕ
  pub frame_size : ℕ
  pub frame_byte_size : ℕ
  pub const_byte_size : ℕ
  pub const_data : List ℕ
  pub data_byte_size : ℕ
  pub data_data : List ℕ
  pub bss_size : ℕ
  pub bss_byte_size : ℕ

-- Linker and NewLinker
pub record Linker : Type 0 where
  pub variable_capacity : ℤ
  pub function_capacity : ℤ

pub data LinkError : Type 0 where
  program_is_nil compiled_is_nil linker_is_nil negative_variables negative_functions : LinkError
  extern_range extern_misaligned function_slot inconsistent_parameters invalid_scope :
      String → LinkError
  unsupported_parameter : String → ℕ → LinkError
  unresolved_function : ℕ → ℕ → LinkError
  entry_not_finalized : ℕ → LinkError

-- The checks of an extern variable.
unfoldable pub check_extern : ℤ → SymbolBinding → Outcome LinkError (Unit {0})
unfolding fail_if
check_extern capacity binding =
    fail_if (ltb_ℤ capacity (pos (binding.byte_offset + binding.byte_size)))
      (LinkError.extern_range binding.name)
      (fail_if
        (ltb 1 binding.byte_alignment && not (binding.byte_offset % binding.byte_alignment == 0))
        (LinkError.extern_misaligned binding.name) (done tt))

unfoldable pub check_externs : ℤ → List SymbolBinding → Outcome LinkError (Unit {0})
unfolding check_extern ◌>>=◌
check_externs capacity [] = done tt
check_externs capacity (binding ∷ bindings) = do
  _ ← check_extern capacity binding
  check_externs capacity bindings

-- tempToFunction, functions, paramKinds and paramOffsets of Link.
pub record Tables : Type 0 where
  pub temp_to_function : List (ℕ × ℕ)
  pub functions : List ScriptFunctionDescriptor
  pub param_kinds : List ValueKind
  pub param_offsets : List ℕ

-- functionIndex, ok := tempToFunction[id]
unfoldable pub function_index : ℕ → List (ℕ × ℕ) → Option ℕ
function_index id [] = none
function_index id ((key, index) ∷ rest) =
    let later = function_index id rest in if id == key then some index else later

-- The loop over a function's parameter types, from a given index on. `panic` is an offset that is
-- missing.
unfoldable pub add_params :
    SymbolBinding
    → ℕ
    → List (Option LangType)
    → List ValueKind
    → List ℕ
    → Outcome LinkError (List ValueKind × List ℕ)
unfolding value_kind_from_type has_stack_value_kind fail_if
add_params binding index [] kinds offsets = done (kinds, offsets)
add_params binding index (typ ∷ types) kinds offsets =
    let rest = λ (offset : ℕ).
      add_params binding (index + 1) types (kinds ++ (value_kind_from_type typ ∷ []))
        (offsets ++ (offset ∷ [])) in
    fail_if (not (has_stack_value_kind (value_kind_from_type typ)))
      (LinkError.unsupported_parameter binding.name index)
      (elim (get_elem? binding.param_offsets index) [ some offset ↦ rest offset | none ↦ panic ])

-- The `case ScopeBSS` of Link.
unfoldable pub add_function : SymbolBinding → Tables → Outcome LinkError Tables
unfolding add_params value_kind_from_type fail_if ◌>>=◌
add_function binding tables =
    fail_if
      (not (binding.param_count == u32 (length binding.param_types))
        || not (binding.param_count == u32 (length binding.param_offsets)))
      (LinkError.inconsistent_parameters binding.name)
      do
        (kinds, offsets) ←
            add_params binding 0 binding.param_types tables.param_kinds tables.param_offsets
        done record {
          temp_to_function =
              (binding.temp_func_id, length tables.functions) ∷ tables.temp_to_function;
          functions =
              tables.functions
              ++ (record {
                body_address = binding.script_address;
                param_start = u32 (length tables.param_kinds);
                param_count = binding.param_count;
                frame_byte_size = binding.frame_byte_size;
                return_kind = value_kind_from_type binding.type;
              }
                  ∷ []);
          param_kinds = kinds;
          param_offsets = offsets;
        }

-- The `switch binding.Scope` of Link.
unfoldable pub add_scoped : ScopeKind → ℤ → SymbolBinding → Tables → Outcome LinkError Tables
unfolding add_function fail_if
add_scoped ScopeKind.extern capacity binding tables =
    fail_if (leb_ℤ capacity (pos binding.slot_index)) (LinkError.function_slot binding.name)
      (done tables)
add_scoped ScopeKind.bss capacity binding tables = add_function binding tables
add_scoped _ capacity binding tables = failed (LinkError.invalid_scope binding.name)

-- The loop over the compiled functions.
unfoldable pub add_bindings : ℤ → List SymbolBinding → Tables → Outcome LinkError Tables
unfolding add_scoped ◌>>=◌
add_bindings capacity [] tables = done tables
add_bindings capacity (binding ∷ bindings) tables = do
  tables' ← add_scoped binding.scope capacity binding tables
  add_bindings capacity bindings tables'

abbrev pub of_result : {A : Type 0} → Result A → Outcome LinkError A
of_result (ok a) = done a
of_result (err status) = panic
of_result panic = panic

-- The loop over the call patches.
unfoldable pub patch_calls :
    List (ℕ × ℕ) → List CallPatch → CodeMemory → Outcome LinkError CodeMemory
unfolding function_index patch_uint32 ◌>>=◌
patch_calls map [] text = done text
patch_calls map (patch ∷ patches) text = elim (function_index patch.temp_func_id map) [
  | none ↦ failed (LinkError.unresolved_function patch.line patch.temp_func_id)
  | some index ↦ of_result (patch_uint32 text patch.operand_pos (u32 index)) >>= λ text'.
      patch_calls map patches text'
]

-- The linked program of Link.
unfoldable pub assemble : RelocatableProgram → Tables → CodeMemory → ℕ → LinkedProgram
unfolding copy_program_symbols
assemble compiled tables text entry = record {
  text = text;
  entry_point = u32 entry;
  functions = tables.functions;
  param_kinds = tables.param_kinds;
  param_offsets = tables.param_offsets;
  frame_size = compiled.frame_size;
  frame_byte_size = compiled.frame_byte_size;
  const_byte_size = compiled.const_byte_size;
  const_data = compiled.const_data;
  data_byte_size = compiled.data_byte_size;
  data_data = compiled.data_data;
  bss_size = compiled.bss_size;
  bss_byte_size = compiled.bss_byte_size;
  debug_symbols = copy_program_symbols compiled.program_symbols;
}

abbrev pub no_tables : Tables
no_tables = record { temp_to_function = []; functions = []; param_kinds = []; param_offsets = [] }

-- The lookup of the entry function.
unfoldable pub find_entry : RelocatableProgram → Tables → Outcome LinkError ℕ
unfolding function_index
find_entry compiled tables = elim (function_index compiled.entry_function tables.temp_to_function) [
  | some index ↦ done index
  | none ↦ failed (LinkError.entry_not_finalized compiled.entry_function)
]

-- Link behind the checks of the capacities, by the symbols of the compiled program.
unfoldable pub link_symbols :
    Linker → RelocatableProgram → Option ProgramSymbols → Outcome LinkError LinkedProgram
unfolding check_externs add_bindings patch_calls find_entry assemble ◌>>=◌
link_symbols linker compiled none = panic
link_symbols linker compiled (some symbols) = do
  _ ← check_externs linker.variable_capacity symbols.extern_symbols
  tables ← add_bindings linker.function_capacity compiled.functions no_tables
  text ← patch_calls tables.temp_to_function compiled.call_patches compiled.text
  entry ← find_entry compiled tables
  done (assemble compiled tables text entry)

-- Link, of a program, a compiled program and a linker that are not nil.
unfoldable pub link_compiled : Linker → RelocatableProgram → Outcome LinkError LinkedProgram
unfolding link_symbols fail_if
link_compiled linker compiled =
    fail_if (ltb_ℤ linker.variable_capacity (pos 0)) LinkError.negative_variables (
      fail_if (ltb_ℤ linker.function_capacity (pos 0)) LinkError.negative_functions
        (link_symbols linker compiled compiled.program_symbols))

-- Link
unfoldable pub link :
    Option Linker → Option AstProgram → Option RelocatableProgram → Outcome LinkError LinkedProgram
unfolding link_compiled
link linker none compiled = failed LinkError.program_is_nil
link linker (some program) none = failed LinkError.compiled_is_nil
link none (some program) (some compiled) = failed LinkError.linker_is_nil
link (some linker) (some program) (some compiled) = link_compiled linker compiled
