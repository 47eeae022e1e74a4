-- ===== src/Linker/Whole.antt =====
-- Link of cova/link.go as a whole.
use mathlib.Core.Path.{subst}
use go_lcc.Base.{
  All, ◌&&◌, not, ltb, ◌==◌, ℕ, ◌+◌, ◌%◌, ◌^◌, ◌≤◌, ◌<◌, ◌≡◌, refl, sym, ◌∙◌, u32, Option, none,
  some, List, [], ◌∷◌, length, length-splice, le→leb, arith,
}
use go_lcc.Base.Int.{ℤ, pos, ltb_ℤ}
use go_lcc.Outcome.{done, failed, Safe, Safe->>=, Safe-map, fail_if}
use go_lcc.Bytes.{le_put, le_bytes}
use go_lcc.Code.{CodeMemory, patch_uint32}
use go_lcc.Program.{LinkedProgram}
use go_lcc.Ast.{AstProgram}
use go_lcc.Symbols.{SymbolBinding, ProgramSymbols}
use go_lcc.Linker.{
  CallPatch, RelocatableProgram, Linker, LinkError, Tables, check_extern, check_externs,
  add_bindings, function_index, patch_calls, of_result, find_entry, assemble, no_tables,
  link_symbols, link_compiled, link,
}
use go_lcc.Linker.Descriptors.{
  Any, LiesIn, IsStackKind, IsConsistent, Bounded, total_params, fail_if-Safe, add_bindings-Safe,
}

pub by_option :
    {A B : Type 0} (R : B → Type 0) (o : Option A) (x : B) (f : A → B)
    → (o ≡ none → R x)
    → ((a : A) → o ≡ some a → R (f a))
    → R (elim o [ none ↦ x | some a ↦ f a ])
by_option R none x f h k = h refl
by_option R (some a) x f h k = k a refl

check_extern-Safe :
    (capacity : ℤ) (binding : SymbolBinding)
    → Safe Any (λ u. Unit {0}) (check_extern capacity binding)
unfolding check_extern
check_extern-Safe capacity binding =
    let misaligned =
      ltb 1 binding.byte_alignment && not (binding.byte_offset % binding.byte_alignment == 0) in
    let aligned = fail_if misaligned (LinkError.extern_misaligned binding.name) (done tt) in
    fail_if-Safe (λ u. Unit {0}) (ltb_ℤ capacity (pos (binding.byte_offset + binding.byte_size)))
      (LinkError.extern_range binding.name) aligned
      (λ e.
        fail_if-Safe (λ u. Unit {0}) misaligned (LinkError.extern_misaligned binding.name) (done tt)
          (λ e'. tt))

check_externs-Safe :
    (capacity : ℤ) (bindings : List SymbolBinding)
    → Safe Any (λ u. Unit {0}) (check_externs capacity bindings)
unfolding check_externs
check_externs-Safe capacity [] = tt
check_externs-Safe capacity (binding ∷ bindings) =
    Safe->>= Any (λ u. Unit {0}) (λ u. Unit {0}) (check_extern capacity binding) _
      (check_extern-Safe capacity binding) (λ u h. check_externs-Safe capacity bindings)

-- The operands of the patches lie in code of n bytes.
abbrev pub PatchIn : ℕ → CallPatch → Type 0
PatchIn n patch = patch.operand_pos + 4 ≤ n

patch_uint32-Safe :
    (text : CodeMemory) (at value : ℕ)
    → at + 4 ≤ length text
    → Safe Any (λ text'. length text' ≡ length text) (of_result (patch_uint32 text at value))
unfolding patch_uint32 le_put
patch_uint32-Safe text at value h =
    rw (le→leb (at + 4) (length text) h) (length-splice text at (le_bytes 4 value))

pub patch_calls-Safe :
    (map : List (ℕ × ℕ)) (patches : List CallPatch) (text : CodeMemory)
    → All (PatchIn (length text)) patches
    → Safe Any (λ text'. length text' ≡ length text) (patch_calls map patches text)
unfolding patch_calls
patch_calls-Safe map [] text h = refl
patch_calls-Safe map (patch ∷ patches) text (h, hs) =
    by_option (Safe Any (λ text'. length text' ≡ length text))
      (function_index patch.temp_func_id map)
      (failed (LinkError.unresolved_function patch.line patch.temp_func_id)) _ (λ e. tt)
      λ index e.
        Safe->>= Any (λ text'. length text' ≡ length text) (λ text'. length text' ≡ length text)
          (of_result (patch_uint32 text patch.operand_pos (u32 index))) _
          (patch_uint32-Safe text patch.operand_pos (u32 index) h)
          λ text' e'.
            Safe-map Any (λ t. length t ≡ length text') (λ t. length t ≡ length text)
              (patch_calls map patches text')
              (patch_calls-Safe map patches text'
                (subst (λ n. All (PatchIn n) patches) (sym e') hs))
              (λ t e''. e'' ∙ e')

find_entry-Safe :
    (compiled : RelocatableProgram) (t : Tables)
    → IsConsistent t
    → Safe Any (λ i. i < length t.functions) (find_entry compiled t)
unfolding find_entry
find_entry-Safe compiled t c =
    by_option (Safe Any (λ i. i < length t.functions))
      (function_index compiled.entry_function t.temp_to_function)
      (failed (LinkError.entry_not_finalized compiled.entry_function)) done (λ e. tt)
      (c.indices compiled.entry_function)

-- What the compiler gives the linker: its symbols, fewer than 2 ^ 32 parameters in all, and patches
-- in the code.
pub record IsCompiled (c : RelocatableProgram) : Type 0 where
  pub symbols : ProgramSymbols
  pub has_symbols : c.program_symbols ≡ some symbols
  pub few_params : total_params c.functions < 2 ^ 32
  pub patches : All (PatchIn (length c.text)) c.call_patches

-- What the machine is given of a compiled program.
pub record IsLinked (c : RelocatableProgram) (p : LinkedProgram) : Type 0 where
  pub entry : p.entry_point < length p.functions
  pub params_within : All (LiesIn (length p.param_kinds)) p.functions
  pub same_length : length p.param_offsets ≡ length p.param_kinds
  pub stack_kinds : All IsStackKind p.param_kinds
  pub text_length : length p.text ≡ length c.text
  pub constants : p.const_data ≡ c.const_data
  pub initial_data : p.data_data ≡ c.data_data
  pub const_size : p.const_byte_size ≡ c.const_byte_size
  pub data_size : p.data_byte_size ≡ c.data_byte_size

no_tables-Bounded : Bounded 0 no_tables
unfolding function_index
no_tables-Bounded = (
  record { same_length = refl; stack_kinds = tt; within = tt; indices = λ id i h. ground arith },
  omega arith,
)

assemble-IsLinked :
    (c : RelocatableProgram) (t : Tables) (text : CodeMemory) (i : ℕ)
    → IsConsistent t
    → length text ≡ length c.text
    → i < length t.functions
    → IsLinked c (assemble c t text i)
unfolding assemble
assemble-IsLinked c t text i k e h = record {
  entry = omega (arith, h);
  params_within = k.within;
  same_length = k.same_length;
  stack_kinds = k.stack_kinds;
  text_length = e;
  constants = refl;
  initial_data = refl;
  const_size = refl;
  data_size = refl;
}

link_symbols-IsLinked :
    (linker : Linker) (compiled : RelocatableProgram) (symbols : ProgramSymbols)
    → IsCompiled compiled
    → Safe Any (IsLinked compiled) (link_symbols linker compiled (some symbols))
unfolding link_symbols
link_symbols-IsLinked linker compiled symbols k =
    let R = IsLinked compiled in
    Safe->>= Any (λ u. Unit {0}) R (check_externs linker.variable_capacity symbols.extern_symbols) _
      (check_externs-Safe linker.variable_capacity symbols.extern_symbols)
      λ u h.
        Safe->>= Any (Bounded (0 + total_params compiled.functions)) R
          (add_bindings linker.function_capacity compiled.functions no_tables) _
          (add_bindings-Safe linker.function_capacity compiled.functions no_tables 0
            (omega (arith, k.few_params)) no_tables-Bounded)
          λ t (c, le).
            Safe->>= Any (λ text. length text ≡ length compiled.text) R
              (patch_calls t.temp_to_function compiled.call_patches compiled.text) _
              (patch_calls-Safe t.temp_to_function compiled.call_patches compiled.text k.patches)
              λ text e.
                Safe->>= Any (λ i. i < length t.functions) R (find_entry compiled t) _
                  (find_entry-Safe compiled t c)
                  (λ i h'. assemble-IsLinked compiled t text i c e h')

-- Linking a compiled program with its symbols, fewer than 2 ^ 32 parameters in all and its patches in
-- its code does not panic, for any capacities: it fails with one of the linker's errors, or it gives
-- a program whose entry point is one of its functions, whose functions have their parameters inside
-- the two parameter tables, which are equally long and hold kinds of values, whose code is as long as
-- before, and whose constants and data are those of the compiled program.
pub link-IsLinked :
    (linker : Linker) (program : AstProgram) (compiled : RelocatableProgram)
    → IsCompiled compiled
    → Safe Any (IsLinked compiled) (link (some linker) (some program) (some compiled))
unfolding link link_compiled
link-IsLinked linker program compiled k =
    let R = IsLinked compiled in
    let linked = link_symbols linker compiled compiled.program_symbols in
    fail_if-Safe R (ltb_ℤ linker.variable_capacity (pos 0)) LinkError.negative_variables _ λ e1.
      fail_if-Safe R (ltb_ℤ linker.function_capacity (pos 0)) LinkError.negative_functions linked
        λ e2.
          subst (λ symbols. Safe Any R (link_symbols linker compiled symbols)) (sym k.has_symbols)
            (link_symbols-IsLinked linker compiled k.symbols k)
