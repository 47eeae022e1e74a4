-- ===== src/Linker/Tests.antt =====
-- The linker's theorems at a program of two functions, of which the first calls the second.
use go_lcc.Base.{All, ℕ, ◌≡◌, refl, List, [], ◌∷◌, some, inl, arith}
use go_lcc.Base.Int.{pos}
use go_lcc.Outcome.{done, failed, Safe}
use go_lcc.Types.{int32_type, void_type}
use go_lcc.Ast.{DeclKind, ScopeKind, AstProgram}
use go_lcc.Kinds.{ValueKind}
use go_lcc.Bytes.{le_put, le_bytes}
use go_lcc.Code.{CodeMemory}
use go_lcc.Symbols.{SymbolBinding, ProgramSymbols}
use go_lcc.Program.{LinkedProgram}
use go_lcc.Linker.{CallPatch, RelocatableProgram, Linker, LinkError, patch_calls, link}
use go_lcc.Linker.Descriptors.{Any, total_params}
use go_lcc.Linker.Whole.{IsCompiled, IsLinked, link-IsLinked}
use go_lcc.Linker.Layout.{IsLaidOut, link-IsLaidOut}
use go_lcc.Linker.Calls.{
  Patched, Resolved, first_unresolved, patch_calls-first_unresolved, le_read-patch_calls,
}

abbrev main_function : SymbolBinding
main_function = record {
  name = "main";
  kind = DeclKind.function;
  scope = ScopeKind.bss;
  type = some void_type;
  slot_index = 0;
  byte_offset = 0;
  byte_size = 0;
  byte_alignment = 0;
  param_count = 0;
  param_types = [];
  param_offsets = [];
  frame_slot_count = 0;
  frame_byte_size = 0;
  temp_func_id = 7;
  script_address = 0;
}

abbrev callee : SymbolBinding
callee = record {
  name = "callee";
  kind = DeclKind.function;
  scope = ScopeKind.bss;
  type = some int32_type;
  slot_index = 0;
  byte_offset = 0;
  byte_size = 0;
  byte_alignment = 0;
  param_count = 2;
  param_types = some int32_type ∷ some int32_type ∷ [];
  param_offsets = 0 ∷ 4 ∷ [];
  frame_slot_count = 2;
  frame_byte_size = 8;
  temp_func_id = 9;
  script_address = 12;
}

abbrev call_of : SymbolBinding → CallPatch
call_of binding = record { operand_pos = 2; temp_func_id = binding.temp_func_id; line = 3 }

abbrev second_call : CallPatch
second_call = record { operand_pos = 8; temp_func_id = 7; line = 4 }

abbrev twelve_bytes : CodeMemory
twelve_bytes = 11 ∷ 0 ∷ 9 ∷ 0 ∷ 0 ∷ 0 ∷ 11 ∷ 0 ∷ 7 ∷ 0 ∷ 0 ∷ 0 ∷ 13 ∷ 0 ∷ []

abbrev few_symbols : ProgramSymbols
few_symbols = record {
  symbols = ("main", main_function) ∷ [];
  extern_symbols = [];
  bss_symbols = [];
  data_symbols = [];
  const_symbols = [];
}

abbrev compiled : RelocatableProgram
compiled = record {
  text = twelve_bytes;
  program_symbols = some few_symbols;
  functions = main_function ∷ callee ∷ [];
  call_patches = call_of callee ∷ second_call ∷ [];
  used_external_function_ids = [];
  entry_function = 7;
  frame_size = 2;
  frame_byte_size = 8;
  const_byte_size = 1;
  const_data = 5 ∷ [];
  data_byte_size = 0;
  data_data = [];
  bss_size = 0;
  bss_byte_size = 0;
}

abbrev linker : Linker
linker = record { variable_capacity = pos 0; function_capacity = pos 0 }

abbrev tree : AstProgram
tree = record { decls = []; functions = [] }

abbrev linked : LinkedProgram
linked = record {
  text = 11 ∷ 0 ∷ 1 ∷ 0 ∷ 0 ∷ 0 ∷ 11 ∷ 0 ∷ 0 ∷ 0 ∷ 0 ∷ 0 ∷ 13 ∷ 0 ∷ [];
  entry_point = 0;
  functions =
      record {
        body_address = 0;
        param_start = 0;
        param_count = 0;
        frame_byte_size = 0;
        return_kind = ValueKind.void;
      }
      ∷ record {
        body_address = 12;
        param_start = 0;
        param_count = 2;
        frame_byte_size = 8;
        return_kind = ValueKind.int32;
      }
      ∷ [];
  param_kinds = ValueKind.int32 ∷ ValueKind.int32 ∷ [];
  param_offsets = 0 ∷ 4 ∷ [];
  frame_size = 2;
  frame_byte_size = 8;
  const_byte_size = 1;
  const_data = 5 ∷ [];
  data_byte_size = 0;
  data_data = [];
  bss_size = 0;
  bss_byte_size = 0;
  debug_symbols = some few_symbols;
}

linking_runs : link (some linker) (some tree) (some compiled) ≡ done linked
unfolding link le_put le_bytes
linking_runs = refl

compiled-IsCompiled : IsCompiled compiled
unfolding total_params
compiled-IsCompiled = record {
  symbols = few_symbols;
  has_symbols = refl;
  few_params = omega arith;
  patches = (omega arith, (omega arith, tt));
}

link-IsLinked_example :
    Safe Any (IsLinked compiled) (link (some linker) (some tree) (some compiled))
link-IsLinked_example = link-IsLinked linker tree compiled compiled-IsCompiled

link-IsLaidOut_example : IsLaidOut compiled linked
link-IsLaidOut_example = link-IsLaidOut linker tree compiled linked linking_runs

abbrev table : List (ℕ × ℕ)
table = (9, 1) ∷ (7, 0) ∷ []

-- The same patches without the second function.
abbrev short_table : List (ℕ × ℕ)
short_table = (9, 1) ∷ []

patch_calls-first_unresolved_example :
    Patched
      (first_unresolved short_table compiled.call_patches)
      twelve_bytes
      (patch_calls short_table compiled.call_patches twelve_bytes)
patch_calls-first_unresolved_example =
    patch_calls-first_unresolved short_table compiled.call_patches twelve_bytes
      (omega arith, (omega arith, tt))

unresolved_runs :
    patch_calls short_table compiled.call_patches twelve_bytes
    ≡ failed (LinkError.unresolved_function 4 7)
unfolding patch_calls le_put le_bytes
unresolved_runs = refl

patching_runs : patch_calls table compiled.call_patches twelve_bytes ≡ done linked.text
unfolding patch_calls le_put le_bytes
patching_runs = refl

le_read-patch_calls_example : All (Resolved table linked.text) compiled.call_patches
le_read-patch_calls_example =
    le_read-patch_calls table compiled.call_patches twelve_bytes linked.text
      (omega arith, (omega arith, tt)) ((inl (omega arith), tt), (tt, tt)) patching_runs
