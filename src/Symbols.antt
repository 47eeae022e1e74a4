-- ===== src/Symbols.antt =====
-- The symbols of cova/types.go: the bindings that the compiler gives, and the symbols of a program.
use Prim.Native.String.{String}
use go_lcc.Base.{ℕ, List, Option, none, some}
use go_lcc.Names.{NameMap}
use go_lcc.Types.{LangType}
use go_lcc.Ast.{DeclKind, ScopeKind}

pub record SymbolBinding : Type 0 where
  pub name : String
  pub kind : DeclKind
  pub scope : ScopeKind
  pub type : Option LangType
  pub slot_index : ℕ
  pub byte_offset : ℕ
  pub byte_size : ℕ
  pub byte_alignment : ℕ
  pub param_count : ℕ
  pub param_types : List (Option LangType)
  pub param_offsets : List ℕ
  pub frame_slot_count : ℕ
  pub frame_byte_size : ℕ
  pub temp_func_id : ℕ
  pub script_address : ℕ

pub record ProgramSymbols : Type 0 where
  pub symbols : NameMap SymbolBinding
  pub extern_symbols : List SymbolBinding
  pub bss_symbols : List SymbolBinding
  pub data_symbols : List SymbolBinding
  pub const_symbols : List SymbolBinding

-- CopyProgramSymbols, whose copies of the map and the slices have the same values; `none` is nil.
unfoldable pub copy_program_symbols : Option ProgramSymbols → Option ProgramSymbols
copy_program_symbols none = none
copy_program_symbols (some src) = some record {
  symbols = src.symbols;
  extern_symbols = src.extern_symbols;
  bss_symbols = src.bss_symbols;
  data_symbols = src.data_symbols;
  const_symbols = src.const_symbols;
}
