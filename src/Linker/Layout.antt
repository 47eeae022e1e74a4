-- ===== src/Linker/Layout.antt =====
-- Link of cova/link.go: the program that it lays out, told from the compiled functions alone.
use mathlib.Core.Path.{subst}
use mathlib.Core.List.{append_assoc}
use go_lcc.Base.{
  ℕ, suc, ◌+◌, ◌≡◌, refl, sym, ap, ◌∙◌, u32, ◌==◌, if◌then◌else◌, Option, none, some, List, [], ◌∷◌,
  ◌++◌, map, length, take, length-append,
}
use go_lcc.Base.Int.{ℤ, pos, leb_ℤ, ltb_ℤ}
use go_lcc.Outcome.{Outcome, done, failed, panic, fail_if, Where, Where->>=, Where-any, ◌>>=◌}
use go_lcc.Types.{value_kind_from_type}
use go_lcc.Ast.{ScopeKind, AstProgram}
use go_lcc.Symbols.{SymbolBinding, ProgramSymbols, copy_program_symbols}
use go_lcc.Program.{LinkedProgram}
use go_lcc.Linker.{
  RelocatableProgram, Linker, LinkError, Tables, check_externs, add_function, add_scoped,
  add_bindings, function_index, patch_calls, find_entry, assemble, no_tables, link_symbols,
  link_compiled, link,
}
use go_lcc.Linker.Script.{
  scripts, kinds_of, offsets_of, descriptors, descriptor_at, last_index, or_else, fail_if-Where,
  Where-map, append-nil, Laid, Added, add_function-Added,
}

length-map : {A B : Type 0} (f : A → B) (xs : List A) → length (map f xs) ≡ length xs
length-map f [] = refl
length-map f (x ∷ xs) = ap suc (length-map f xs)

-- One function, and the functions behind it.
Laid-cons :
    (t t₁ t₂ : Tables) (binding : SymbolBinding) (bindings : List SymbolBinding)
    → Added t binding t₁
    → Laid t₁ bindings t₂
    → Laid t (binding ∷ bindings) t₂
unfolding descriptors kinds_of offsets_of last_index
Laid-cons t t₁ t₂ binding bindings (f₁, k₁, o₁, i₁) (f₂, k₂, o₂, i₂) =
    let kinds = map value_kind_from_type binding.param_types in
    let offsets = take (length binding.param_types) binding.param_offsets in
    let more : length t₁.param_kinds ≡ length t.param_kinds + length binding.param_types =
      ap length (k₁ ∙ ap (λ l. t.param_kinds ++ l) (sym (append-nil kinds)))
      ∙ length-append t.param_kinds kinds
      ∙ ap (λ n. length t.param_kinds + n) (length-map value_kind_from_type binding.param_types) in
    let later : length t₁.functions ≡ length t.functions + 1 =
      ap length f₁ ∙ length-append t.functions _ in
    (
      f₂
          ∙ ap (λ l. l ++ descriptors (length t₁.param_kinds) bindings) f₁
          ∙ append_assoc t.functions _ _
          ∙ ap
              (λ n.
                t.functions
                ++ (descriptor_at (length t.param_kinds) binding ∷ descriptors n bindings))
              more,
      k₂
          ∙ ap (λ l. l ++ kinds_of bindings)
              (k₁ ∙ ap (λ l. t.param_kinds ++ l) (sym (append-nil kinds)))
          ∙ append_assoc t.param_kinds kinds (kinds_of bindings),
      o₂
          ∙ ap (λ l. l ++ offsets_of bindings)
              (o₁ ∙ ap (λ l. t.param_offsets ++ l) (sym (append-nil offsets)))
          ∙ append_assoc t.param_offsets offsets (offsets_of bindings),
      λ id.
          i₂ id
          ∙ ap (λ n. or_else (last_index id n bindings) (function_index id t₁.temp_to_function))
              later
          ∙ ap (or_else (last_index id (length t.functions + 1) bindings)) (i₁ id)
          ∙ by_last (last_index id (length t.functions + 1) bindings)
              (if id == binding.temp_func_id then some (length t.functions) else none)
              (function_index id t.temp_to_function),
    )
  where
    by_last :
        (later first old : Option ℕ)
        → or_else later (or_else first old)
          ≡ or_else (elim later [ some i ↦ some i | none ↦ first ]) old
    by_last none first old = refl
    by_last (some i) first old = refl

Laid-nil : (t : Tables) → Laid t [] t
unfolding descriptors kinds_of offsets_of last_index
Laid-nil t =
    (append-nil t.functions, append-nil t.param_kinds, append-nil t.param_offsets, λ id. refl)

scope-Laid :
    (scope : ScopeKind) (capacity : ℤ) (binding : SymbolBinding) (bindings : List SymbolBinding)
    (t : Tables)
    → ((u : Tables) → Where (Laid u (scripts bindings)) (add_bindings capacity bindings u))
    → Where
        (Laid t (elim scope [ ScopeKind.bss ↦ binding ∷ scripts bindings | _ ↦ scripts bindings ]))
        (add_scoped scope capacity binding t >>= λ t'. add_bindings capacity bindings t')
unfolding add_scoped ◌>>=◌
scope-Laid ScopeKind.bss capacity binding bindings t rest =
    Where->>= (Added t binding) (Laid t (binding ∷ scripts bindings)) (add_function binding t) _
      (add_function-Added binding t)
      λ t₁ added.
        Where-map (Laid t₁ (scripts bindings)) (Laid t (binding ∷ scripts bindings))
          (add_bindings capacity bindings t₁) (rest t₁)
          (λ t₂ laid. Laid-cons t t₁ t₂ binding (scripts bindings) added laid)
scope-Laid ScopeKind.extern capacity binding bindings t rest =
    Where->>= (λ t₁. t₁ ≡ t) (Laid t (scripts bindings))
      (fail_if (leb_ℤ capacity (pos binding.slot_index)) (LinkError.function_slot binding.name)
        (done t))
      _ (fail_if-Where (λ t₁. t₁ ≡ t) _ _ (done t) refl)
      λ t₁ e.
        subst (λ u. Where (Laid t (scripts bindings)) (add_bindings capacity bindings u)) (sym e)
          (rest t)
scope-Laid _ capacity binding bindings t rest = tt

add_bindings-Laid :
    (capacity : ℤ) (bindings : List SymbolBinding) (t : Tables)
    → Where (Laid t (scripts bindings)) (add_bindings capacity bindings t)
unfolding add_bindings scripts
add_bindings-Laid capacity [] t = Laid-nil t
add_bindings-Laid capacity (binding ∷ bindings) t =
    scope-Laid binding.scope capacity binding bindings t (add_bindings-Laid capacity bindings)

-- The program of a compiled program: its functions are those of the script in their order, each with
-- its parameters behind those of the functions in front of it; its entry point is the place of the
-- entry function, and its code is the compiled code, patched by the places of the functions.
pub record IsLaidOut (c : RelocatableProgram) (p : LinkedProgram) : Type 0 where
  pub functions : p.functions ≡ descriptors 0 (scripts c.functions)
  pub param_kinds : p.param_kinds ≡ kinds_of (scripts c.functions)
  pub param_offsets : p.param_offsets ≡ offsets_of (scripts c.functions)
  pub entry :
      (i : ℕ) × (last_index c.entry_function 0 (scripts c.functions) ≡ some i)
      × (p.entry_point ≡ u32 i)
  pub text :
      (map : List (ℕ × ℕ)) × ((id : ℕ)
        → function_index id map ≡ last_index id 0 (scripts c.functions))
      × (patch_calls map c.call_patches c.text ≡ done p.text)
  pub symbols : p.debug_symbols ≡ c.program_symbols

copy_program_symbols_lem : (o : Option ProgramSymbols) → copy_program_symbols o ≡ o
unfolding copy_program_symbols
copy_program_symbols_lem none = refl
copy_program_symbols_lem (some src) = refl

or_else-none : (o : Option ℕ) → or_else o none ≡ o
or_else-none none = refl
or_else-none (some i) = refl

-- A result that is known to be there.
known : {A : Type 0} (m : Outcome LinkError A) → Where (λ a. m ≡ done a) m
known (done a) = refl
known (failed e) = tt
known panic = tt

find_entry-index :
    (compiled : RelocatableProgram) (t : Tables)
    → Where
        (λ i. function_index compiled.entry_function t.temp_to_function ≡ some i)
        (find_entry compiled t)
unfolding find_entry
find_entry-index compiled t = found (function_index compiled.entry_function t.temp_to_function)
  where
    found :
        (o : Option ℕ)
        → Where
            (λ i. o ≡ some i)
            (elim o [
              | some index ↦ done index
              | none ↦ failed (LinkError.entry_not_finalized compiled.entry_function)
            ])
    found none = tt
    found (some i) = refl

link_symbols-IsLaidOut :
    (linker : Linker) (compiled : RelocatableProgram) (symbols : Option ProgramSymbols)
    → Where (IsLaidOut compiled) (link_symbols linker compiled symbols)
unfolding link_symbols assemble function_index kinds_of
link_symbols-IsLaidOut linker compiled none = tt
link_symbols-IsLaidOut linker compiled (some symbols) =
    let P = IsLaidOut compiled in
    let bindings = scripts compiled.functions in
    Where-any P (check_externs linker.variable_capacity symbols.extern_symbols) _ λ u.
      Where->>= (Laid no_tables bindings) P
        (add_bindings linker.function_capacity compiled.functions no_tables) _
        (add_bindings-Laid linker.function_capacity compiled.functions no_tables)
        λ t (functions, kinds, offsets, indices).
          let places = λ (id : ℕ). indices id ∙ or_else-none (last_index id 0 bindings) in
          Where->>=
            (λ text. patch_calls t.temp_to_function compiled.call_patches compiled.text ≡ done text)
            P (patch_calls t.temp_to_function compiled.call_patches compiled.text) _ (known _)
            λ text patched.
              Where->>= (λ i. function_index compiled.entry_function t.temp_to_function ≡ some i) P
                (find_entry compiled t) _ (find_entry-index compiled t)
                λ i found. record {
                  functions = functions;
                  param_kinds = kinds;
                  param_offsets = offsets;
                  entry = (i, sym (places compiled.entry_function) ∙ found, refl);
                  text = (t.temp_to_function, places, patched);
                  symbols = copy_program_symbols_lem compiled.program_symbols;
                }

-- A program that is linked from a compiled program has as its functions those of the script, in their
-- order, each with its address, its frame size, its result's kind, its number of parameters and their
-- start behind those of the functions in front of it; its parameter tables are those of all these
-- functions; its entry point is the place of the last function with the entry's id; its code is the
-- compiled code, patched by the places of the functions, and its debug symbols are the compiled
-- program's.
pub link-IsLaidOut :
    (linker : Linker) (program : AstProgram) (compiled : RelocatableProgram) (p : LinkedProgram)
    → link (some linker) (some program) (some compiled) ≡ done p
    → IsLaidOut compiled p
unfolding link link_compiled
link-IsLaidOut linker program compiled p e =
    let P = IsLaidOut compiled in
    subst (Where P) e (
      fail_if-Where P (ltb_ℤ linker.variable_capacity (pos 0)) LinkError.negative_variables _ (
        fail_if-Where P (ltb_ℤ linker.function_capacity (pos 0)) LinkError.negative_functions _
          (link_symbols-IsLaidOut linker compiled compiled.program_symbols)))
