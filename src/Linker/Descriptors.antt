-- ===== src/Linker/Descriptors.antt =====
-- Link of cova/link.go: what the tables of functions and parameters have while they are built.
use go_lcc.Base.{
  All, ℕ, suc, ◌+◌, ◌^◌, ◌≤◌, ◌<◌, ◌≡◌, refl, Bool, true, false, ◌||◌, not, ◌==◌, u32, Option, some,
  List, [], ◌∷◌, ◌++◌, length, get_elem?-some, length-append, arith,
}
use go_lcc.Base.Int.{ℤ, pos, leb_ℤ}
use go_lcc.Outcome.{Outcome, done, Safe, Safe->>=, Safe-map, fail_if}
use go_lcc.Kinds.{ValueKind, has_stack_value_kind}
use go_lcc.Types.{LangType, value_kind_from_type}
use go_lcc.Ast.{ScopeKind}
use go_lcc.Program.{ScriptFunctionDescriptor}
use go_lcc.Symbols.{SymbolBinding}
use go_lcc.Linker.{
  Tables, LinkError, add_params, add_function, add_scoped, add_bindings, function_index,
}

abbrev pub Any : LinkError → Type 0
Any e = Unit

All-snoc :
    {A : Type 0} (P : A → Type 0) (xs : List A) (x : A) → All P xs → P x → All P (xs ++ (x ∷ []))
All-snoc P [] x h hx = (hx, tt)
All-snoc P (y ∷ ys) x (h, hs) hx = (h, All-snoc P ys x hs hx)

All-map :
    {A : Type 0} (P Q : A → Type 0) (xs : List A) → All P xs → ((x : A) → P x → Q x) → All Q xs
All-map P Q [] h k = tt
All-map P Q (x ∷ xs) (h, hs) k = (k x h, All-map P Q xs hs k)

-- A kind that a value on the stack can have.
abbrev pub IsStackKind : ValueKind → Type 0
IsStackKind k = has_stack_value_kind k ≡ true

-- The parameters of a function lie in a table of n.
abbrev pub LiesIn : ℕ → ScriptFunctionDescriptor → Type 0
LiesIn n f = f.param_start + f.param_count ≤ n

pub fail_if-Safe :
    {A : Type 0} (P : A → Type 0) (b : Bool) (e : LinkError) (m : Outcome LinkError A)
    → (b ≡ false → Safe Any P m)
    → Safe Any P (fail_if b e m)
unfolding fail_if
fail_if-Safe P true e m h = tt
fail_if-Safe P false e m h = h refl

-- The tables behind a run of the parameter loop.
abbrev ParamsAdded : ℕ → List ValueKind → List ℕ → List ValueKind × List ℕ → Type 0
ParamsAdded n kinds offsets r =
    (length r.0 ≡ length kinds + n) × (length r.1 ≡ length offsets + n) × All IsStackKind r.0

length-snoc : {A : Type 0} (xs : List A) (x : A) → length (xs ++ (x ∷ [])) ≡ length xs + 1
length-snoc xs x = length-append xs (x ∷ [])

add_params-Safe :
    (binding : SymbolBinding) (index : ℕ) (types : List (Option LangType)) (kinds : List ValueKind)
    (offsets : List ℕ)
    → index + length types ≤ length binding.param_offsets
    → All IsStackKind kinds
    → Safe Any
        (ParamsAdded (length types) kinds offsets)
        (add_params binding index types kinds offsets)
unfolding add_params
add_params-Safe binding index [] kinds offsets room h = (omega arith, omega arith, h)
add_params-Safe binding index (typ ∷ types) kinds offsets room h =
    let k = value_kind_from_type typ in
    let (offset, found) = get_elem?-some binding.param_offsets index (omega arith) in
    fail_if-Safe (ParamsAdded (suc (length types)) kinds offsets) (not (has_stack_value_kind k))
      (LinkError.unsupported_parameter binding.name index) _
      λ e. rw found (
        Safe-map Any (ParamsAdded (length types) (kinds ++ (k ∷ [])) (offsets ++ (offset ∷ [])))
          (ParamsAdded (suc (length types)) kinds offsets)
          (add_params binding (index + 1) types (kinds ++ (k ∷ [])) (offsets ++ (offset ∷ [])))
          (add_params-Safe binding (index + 1) types (kinds ++ (k ∷ [])) (offsets ++ (offset ∷ []))
            (omega arith) (All-snoc IsStackKind kinds k h (ground arith)))
          λ r (lk, lo, hr). (
            omega (arith, lk, length-snoc kinds k),
            omega (arith, lo, length-snoc offsets offset),
            hr,
          ))

-- What the tables have between two functions.
pub record IsConsistent (t : Tables) : Type 0 where
  pub same_length : length t.param_offsets ≡ length t.param_kinds
  pub stack_kinds : All IsStackKind t.param_kinds
  pub within : All (LiesIn (length t.param_kinds)) t.functions
  pub indices : (id i : ℕ) → function_index id t.temp_to_function ≡ some i → i < length t.functions

-- The parameters that the scripts' functions among the bindings have.
unfoldable pub total_params : List SymbolBinding → ℕ
total_params [] = 0
total_params (binding ∷ bindings) =
    let rest = total_params bindings in length binding.param_types + rest

-- Consistent tables of at most n parameters.
abbrev pub Bounded : ℕ → Tables → Type 0
Bounded n t = IsConsistent t × (length t.param_kinds ≤ n)

-- A new entry of the map.
index_of_new :
    (id new i : ℕ) (map : List (ℕ × ℕ)) (n : ℕ)
    → ((id i : ℕ) → function_index id map ≡ some i → i < n)
    → function_index id ((new, n) ∷ map) ≡ some i
    → i < suc n
unfolding function_index
index_of_new id new i map n old h = ground (arith, old id i)

counts :
    (count types offsets : ℕ)
    → types < 2 ^ 32
    → (not (count == u32 types) || not (count == u32 offsets)) ≡ false
    → (count ≡ types) × (types ≤ offsets)
counts count types offsets h e = (ground arith, ground arith)

-- The tables with one more function.
function_added :
    (binding : SymbolBinding) (t : Tables) (n : ℕ) (r : List ValueKind × List ℕ)
    (f : ScriptFunctionDescriptor)
    → n + length binding.param_types < 2 ^ 32
    → Bounded n t
    → binding.param_count ≡ length binding.param_types
    → ParamsAdded (length binding.param_types) t.param_kinds t.param_offsets r
    → f.param_start ≡ u32 (length t.param_kinds)
    → f.param_count ≡ binding.param_count
    → Bounded (n + length binding.param_types) record {
      temp_to_function = (binding.temp_func_id, length t.functions) ∷ t.temp_to_function;
      functions = t.functions ++ (f ∷ []);
      param_kinds = r.0;
      param_offsets = r.1;
    }
function_added binding t n r f small (c, le) same (lk, lo, kinds) start count = (
  record {
    same_length = omega (arith, lk, lo, c.same_length);
    stack_kinds = kinds;
    within =
        All-snoc (LiesIn (length r.0)) t.functions f
          (All-map (LiesIn (length t.param_kinds)) (LiesIn (length r.0)) t.functions c.within
            (λ g h. omega (arith, lk, h)))
          (omega (arith, lk, start, count, same, le, small));
    indices = λ id i h. omega (
      arith,
      length-snoc t.functions f,
      index_of_new id binding.temp_func_id i t.temp_to_function (length t.functions) c.indices h,
    );
  },
  omega (arith, lk, le),
)

add_function-Safe :
    (binding : SymbolBinding) (t : Tables) (n : ℕ)
    → n + length binding.param_types < 2 ^ 32
    → Bounded n t
    → Safe Any (Bounded (n + length binding.param_types)) (add_function binding t)
unfolding add_function
add_function-Safe binding t n small b =
    let types = length binding.param_types in
    let offsets = length binding.param_offsets in
    fail_if-Safe (Bounded (n + types))
      (not (binding.param_count == u32 types) || not (binding.param_count == u32 offsets))
      (LinkError.inconsistent_parameters binding.name) _
      λ e.
        let (same, room) = counts binding.param_count types offsets (omega arith) e in
        Safe->>= Any (ParamsAdded types t.param_kinds t.param_offsets) (Bounded (n + types))
          (add_params binding 0 binding.param_types t.param_kinds t.param_offsets) _
          (add_params-Safe binding 0 binding.param_types t.param_kinds t.param_offsets
            (omega (arith, room)) b.0.stack_kinds)
          (λ r added. function_added binding t n r _ small b same added refl refl)

weaken : (n m : ℕ) (t : Tables) → n ≤ m → Bounded n t → Bounded m t
weaken n m t h (c, le) = (c, omega (arith, le, h))

add_scoped-Safe :
    (scope : ScopeKind) (capacity : ℤ) (binding : SymbolBinding) (t : Tables) (n : ℕ)
    → n + length binding.param_types < 2 ^ 32
    → Bounded n t
    → Safe Any (Bounded (n + length binding.param_types)) (add_scoped scope capacity binding t)
unfolding add_scoped
add_scoped-Safe ScopeKind.extern capacity binding t n small b =
    fail_if-Safe (Bounded (n + length binding.param_types))
      (leb_ℤ capacity (pos binding.slot_index)) (LinkError.function_slot binding.name) (done t)
      (λ e. weaken n (n + length binding.param_types) t (omega arith) b)
add_scoped-Safe ScopeKind.bss capacity binding t n small b = add_function-Safe binding t n small b
add_scoped-Safe _ capacity binding t n small b = tt

pub add_bindings-Safe :
    (capacity : ℤ) (bindings : List SymbolBinding) (t : Tables) (n : ℕ)
    → n + total_params bindings < 2 ^ 32
    → Bounded n t
    → Safe Any (Bounded (n + total_params bindings)) (add_bindings capacity bindings t)
unfolding add_bindings total_params
add_bindings-Safe capacity [] t n small b = weaken n (n + 0) t (omega arith) b
add_bindings-Safe capacity (binding ∷ bindings) t n small b =
    let types = length binding.param_types in
    Safe->>= Any (Bounded (n + types)) (Bounded (n + (types + total_params bindings)))
      (add_scoped binding.scope capacity binding t) _
      (add_scoped-Safe binding.scope capacity binding t n (omega arith) b)
      λ t' b'.
        Safe-map Any (Bounded (n + types + total_params bindings))
          (Bounded (n + (types + total_params bindings))) (add_bindings capacity bindings t')
          (add_bindings-Safe capacity bindings t' (n + types) (omega arith) b')
          (λ t'' b''. weaken _ _ t'' (omega arith) b'')
