-- ===== src/Linker/Script.antt =====
-- Link of cova/link.go: its tables, told from the compiled functions alone, and one function's entries.
use mathlib.Core.List.{append_assoc}
use go_lcc.Base.{
  ℕ, zero, suc, ◌+◌, ◌≡◌, refl, sym, ap, ◌∙◌, u32, Bool, true, false, ◌||◌, not, ◌==◌,
  if◌then◌else◌, Option, none, some, List, [], ◌∷◌, ◌++◌, map, length, get_elem?, take, drop, arith,
}
use go_lcc.Outcome.{Outcome, done, failed, panic, fail_if, Where, Where->>=}
use go_lcc.Kinds.{ValueKind, has_stack_value_kind}
use go_lcc.Types.{LangType, value_kind_from_type}
use go_lcc.Ast.{ScopeKind}
use go_lcc.Symbols.{SymbolBinding}
use go_lcc.Program.{ScriptFunctionDescriptor}
use go_lcc.Linker.{LinkError, Tables, add_params, add_function, function_index}

-- The functions of the script, which are those whose scope is BSS.
unfoldable pub scripts : List SymbolBinding → List SymbolBinding
scripts [] = []
scripts (binding ∷ bindings) =
    let rest = scripts bindings in elim binding.scope [ ScopeKind.bss ↦ binding ∷ rest | _ ↦ rest ]

-- The kinds of all parameters, function by function, and their offsets.
unfoldable pub kinds_of : List SymbolBinding → List ValueKind
kinds_of [] = []
kinds_of (binding ∷ bindings) = map value_kind_from_type binding.param_types ++ kinds_of bindings

unfoldable pub offsets_of : List SymbolBinding → List ℕ
offsets_of [] = []
offsets_of (binding ∷ bindings) =
    take (length binding.param_types) binding.param_offsets ++ offsets_of bindings

abbrev pub descriptor_at : ℕ → SymbolBinding → ScriptFunctionDescriptor
descriptor_at start binding = record {
  body_address = binding.script_address;
  param_start = u32 start;
  param_count = binding.param_count;
  frame_byte_size = binding.frame_byte_size;
  return_kind = value_kind_from_type binding.type;
}

-- A function's parameters begin behind those of the functions in front of it.
unfoldable pub descriptors : ℕ → List SymbolBinding → List ScriptFunctionDescriptor
descriptors start [] = []
descriptors start (binding ∷ bindings) =
    descriptor_at start binding ∷ descriptors (start + length binding.param_types) bindings

-- The place of the last function with an id, from a given place on.
unfoldable pub last_index : ℕ → ℕ → List SymbolBinding → Option ℕ
last_index id i [] = none
last_index id i (binding ∷ bindings) = elim (last_index id (i + 1) bindings) [
  | some later ↦ some later
  | none ↦ if id == binding.temp_func_id then some i else none
]

-- The first of two results that there is.
abbrev pub or_else : Option ℕ → Option ℕ → Option ℕ
or_else none o = o
or_else (some i) o = some i

take-drop-get :
    (xs : List ℕ) (i n x : ℕ)
    → get_elem? xs i ≡ some x
    → take (suc n) (drop i xs) ≡ x ∷ take n (drop (suc i) xs)
take-drop-get [] i n x h = cc
take-drop-get (y ∷ ys) zero n x h = cc
take-drop-get (y ∷ ys) (suc i) n x h = take-drop-get ys i n x h

pub fail_if-Where :
    {A : Type 0} (P : A → Type 0) (b : Bool) (e : LinkError) (m : Outcome LinkError A)
    → Where P m
    → Where P (fail_if b e m)
unfolding fail_if
fail_if-Where P true e m h = tt
fail_if-Where P false e m h = h

pub Where-map :
    {A : Type 0} (P Q : A → Type 0) (m : Outcome LinkError A)
    → Where P m
    → ((a : A) → P a → Q a)
    → Where Q m
Where-map P Q (done a) h k = k a h
Where-map P Q (failed e) h k = tt
Where-map P Q panic h k = tt

-- The parameter tables with the parameters of some types, the first at an index.
abbrev Extended :
    SymbolBinding
    → ℕ
    → List (Option LangType)
    → List ValueKind
    → List ℕ
    → List ValueKind × List ℕ
    → Type 0
Extended binding index types kinds offsets r =
    (r.0 ≡ kinds ++ map value_kind_from_type types)
    × (r.1 ≡ offsets ++ take (length types) (drop index binding.param_offsets))

pub append-nil : {A : Type 0} (xs : List A) → xs ≡ xs ++ []
append-nil [] = refl
append-nil (x ∷ xs) = ap (λ ys. x ∷ ys) (append-nil xs)

param_at :
    {B : Type 0} (P : B → Type 0) (o : Option ℕ) (f : ℕ → Outcome LinkError B)
    → ((offset : ℕ) → o ≡ some offset → Where P (f offset))
    → Where P (elim o [ some offset ↦ f offset | none ↦ panic ])
param_at P none f h = tt
param_at P (some offset) f h = h offset refl

add_params-Extended :
    (binding : SymbolBinding) (index : ℕ) (types : List (Option LangType)) (kinds : List ValueKind)
    (offsets : List ℕ)
    → Where
        (Extended binding index types kinds offsets)
        (add_params binding index types kinds offsets)
unfolding add_params
add_params-Extended binding index [] kinds offsets = (append-nil kinds, append-nil offsets)
add_params-Extended binding index (typ ∷ types) kinds offsets =
    let k = value_kind_from_type typ in
    let n = length types in
    let P = Extended binding index (typ ∷ types) kinds offsets in
    fail_if-Where P (not (has_stack_value_kind k))
      (LinkError.unsupported_parameter binding.name index) _
      (param_at P (get_elem? binding.param_offsets index) _ λ offset found.
        let behind : suc index ≡ index + 1 = omega arith in
        let next : take (suc n) (drop index binding.param_offsets)
            ≡ offset ∷ take n (drop (index + 1) binding.param_offsets) =
          take-drop-get binding.param_offsets index n offset found
          ∙ ap (λ i. offset ∷ take n (drop i binding.param_offsets)) behind in
        Where-map
          (Extended binding (index + 1) types (kinds ++ (k ∷ [])) (offsets ++ (offset ∷ []))) P
          (add_params binding (index + 1) types (kinds ++ (k ∷ [])) (offsets ++ (offset ∷ [])))
          (add_params-Extended binding (index + 1) types (kinds ++ (k ∷ []))
            (offsets ++ (offset ∷ [])))
          λ r (hk, ho). (
            hk ∙ append_assoc kinds (k ∷ []) (map value_kind_from_type types),
            ho
                ∙ append_assoc offsets (offset ∷ [])
                    (take n (drop (index + 1) binding.param_offsets))
                ∙ ap (λ l. offsets ++ l) (sym next),
          ))

-- The tables behind some functions of the script.
abbrev pub Laid : Tables → List SymbolBinding → Tables → Type 0
Laid t bindings t' =
    (t'.functions ≡ t.functions ++ descriptors (length t.param_kinds) bindings)
    × (t'.param_kinds ≡ t.param_kinds ++ kinds_of bindings)
    × (t'.param_offsets ≡ t.param_offsets ++ offsets_of bindings)
    × ((id : ℕ)
        → function_index id t'.temp_to_function
          ≡ or_else (last_index id (length t.functions) bindings)
              (function_index id t.temp_to_function))

-- The tables behind one function.
abbrev pub Added : Tables → SymbolBinding → Tables → Type 0
Added t binding t' = Laid t (binding ∷ []) t'

pub add_function-Added :
    (binding : SymbolBinding) (t : Tables) → Where (Added t binding) (add_function binding t)
unfolding add_function descriptors kinds_of offsets_of last_index function_index
add_function-Added binding t =
    let types = binding.param_types in
    let P = Added t binding in
    fail_if-Where P
      (not (binding.param_count == u32 (length types))
        || not (binding.param_count == u32 (length binding.param_offsets)))
      (LinkError.inconsistent_parameters binding.name) _
      (Where->>= (Extended binding 0 types t.param_kinds t.param_offsets) P
        (add_params binding 0 types t.param_kinds t.param_offsets) _
        (add_params-Extended binding 0 types t.param_kinds t.param_offsets)
        λ r (hk, ho). (
          refl,
          hk ∙ ap (λ l. t.param_kinds ++ l) (append-nil (map value_kind_from_type types)),
          ho
              ∙ ap (λ l. t.param_offsets ++ l)
                  (append-nil (take (length types) binding.param_offsets)),
          λ id.
              newest (id == binding.temp_func_id) (length t.functions)
                (function_index id t.temp_to_function),
        ))
  where
    newest :
        (b : Bool) (i : ℕ) (o : Option ℕ)
        → (if b then some i else o) ≡ or_else (if b then some i else none) o
    newest true i o = refl
    newest false i o = refl
