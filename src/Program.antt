-- ===== src/Program.antt =====
-- LinkedProgram and ScriptFunctionDescriptor of cova/types.go: what the linker hands to the machine.
use go_lcc.Base.{ℕ, List, Option}
use go_lcc.Kinds.{ValueKind}
use go_lcc.Symbols.{ProgramSymbols}
use go_lcc.Code.{CodeMemory}

pub record ScriptFunctionDescriptor : Type 0 where
  pub body_address : ℕ
  pub param_start : ℕ
  pub param_count : ℕ
  pub frame_byte_size : ℕ
  pub return_kind : ValueKind

pub record LinkedProgram : Type 0 where
  pub text : CodeMemory
  pub entry_point : ℕ
  pub functions : List ScriptFunctionDescriptor
  pub param_kinds : List ValueKind
  pub param_offsets : List ℕ
  pub frame_size : ℕ
  pub frame_byte_size : ℕ
  pub const_byte_size : ℕ
  pub const_data : List ℕ
  pub data_byte_size : ℕ
  pub data_data : List ℕ
  pub bss_size : ℕ
  pub bss_byte_size : ℕ
  pub debug_symbols : Option ProgramSymbols
