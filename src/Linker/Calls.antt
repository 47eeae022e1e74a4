-- ===== src/Linker/Calls.antt =====
-- The call patches of Link of cova/link.go.
use mathlib.Core.Path.{subst}
use go_lcc.Base.{
  All, ℕ, ◌+◌, ◌≤◌, ◌≡◌, refl, sym, ap, ◌∙◌, u32, Option, none, some, List, [], ◌∷◌, length, ◌⊎◌,
  inl, inr, le→leb, length-splice, slice, take, splice, slice-splice_before, drop-splice, arith,
}
use go_lcc.Outcome.{Outcome, done, failed, Safe, ◌>>=◌}
use go_lcc.Status.{ok}
use go_lcc.Bytes.{le_put, le_bytes, le_read, le_value}
use go_lcc.Bytes.Laws.{length-le_bytes, le_read-eq-ok, le_value-slice-splice}
use go_lcc.Code.{CodeMemory, patch_uint32}
use go_lcc.Linker.{CallPatch, LinkError, function_index, patch_calls, of_result}
use go_lcc.Linker.Descriptors.{Any}
use go_lcc.Linker.Whole.{PatchIn, by_option, patch_calls-Safe}

-- The first patch of a function that has no index.
unfoldable pub first_unresolved : List (ℕ × ℕ) → List CallPatch → Option CallPatch
unfolding function_index
first_unresolved map [] = none
first_unresolved map (patch ∷ patches) = elim (function_index patch.temp_func_id map) [
  | none ↦ some patch
  | some index ↦ first_unresolved map patches
]

-- What patching gives: an error at the first patch that is not resolved, else code.
abbrev pub Patched : Option CallPatch → CodeMemory → Outcome LinkError CodeMemory → Type 0
Patched (some patch) text result =
    result ≡ failed (LinkError.unresolved_function patch.line patch.temp_func_id)
Patched none text result =
    (text' : CodeMemory) × (result ≡ done text') × (length text' ≡ length text)

patched_once :
    (text : CodeMemory) (at value : ℕ)
    → at + 4 ≤ length text
    → of_result (patch_uint32 text at value) ≡ done (splice text at (le_bytes 4 value))
unfolding patch_uint32 le_put
patched_once text at value h = rw (le→leb (at + 4) (length text) h) refl

still_in :
    (text : CodeMemory) (at value : ℕ) (patches : List CallPatch)
    → All (PatchIn (length text)) patches
    → All (PatchIn (length (splice text at (le_bytes 4 value)))) patches
still_in text at value patches =
    subst (λ n. All (PatchIn n) patches) (sym (length-splice text at (le_bytes 4 value)))

same_length :
    (o : Option CallPatch) (t t' : CodeMemory) (m : Outcome LinkError CodeMemory)
    → length t' ≡ length t
    → Patched o t' m
    → Patched o t m
same_length (some patch) t t' m e h = h
same_length none t t' m e (t'', done_, e') = (t'', done_, e' ∙ e)

patch_calls_first :
    (patch : CallPatch) (text : CodeMemory) (o : Option ℕ) (rest : Option CallPatch)
    (run : ℕ → Outcome LinkError CodeMemory)
    → ((index : ℕ) → Patched rest text (run index))
    → Patched
        (elim o [ none ↦ some patch | some index ↦ rest ])
        text
        (elim o [
          | none ↦ failed (LinkError.unresolved_function patch.line patch.temp_func_id)
          | some index ↦ run index
        ])
patch_calls_first patch text none rest run h = refl
patch_calls_first patch text (some index) rest run h = h index

-- Patching code that holds the operands of all patches fails at the first patch whose function has no
-- index, with its line and its id, and succeeds where every function has one, with code of the same
-- length.
pub patch_calls-first_unresolved :
    (map : List (ℕ × ℕ)) (patches : List CallPatch) (text : CodeMemory)
    → All (PatchIn (length text)) patches
    → Patched (first_unresolved map patches) text (patch_calls map patches text)
unfolding first_unresolved patch_calls
patch_calls-first_unresolved map [] text h = (text, refl, refl)
patch_calls-first_unresolved map (patch ∷ patches) text (h, hs) =
    patch_calls_first patch text (function_index patch.temp_func_id map)
      (first_unresolved map patches) _
      λ index.
        let text' = splice text patch.operand_pos (le_bytes 4 (u32 index)) in
        rw (patched_once text patch.operand_pos (u32 index) h) (
          same_length (first_unresolved map patches) text text' (patch_calls map patches text')
            (length-splice text patch.operand_pos (le_bytes 4 (u32 index)))
            (patch_calls-first_unresolved map patches text'
              (still_in text patch.operand_pos (u32 index) patches hs)))

-- Two operands have no byte in common.
abbrev pub IsApart : ℕ → CallPatch → Type 0
IsApart at patch = (at + 4 ≤ patch.operand_pos) ⊎ (patch.operand_pos + 4 ≤ at)

slice-splice_apart :
    (text : CodeMemory) (at value : ℕ) (patch : CallPatch)
    → IsApart at patch
    → slice (splice text patch.operand_pos (le_bytes 4 value)) at 4 ≡ slice text at 4
slice-splice_apart text at value patch (inl h) =
    slice-splice_before text patch.operand_pos (le_bytes 4 value) at 4 h
slice-splice_apart text at value patch (inr h) = ap (take 4) (
    drop-splice text patch.operand_pos (le_bytes 4 value) at
      (omega (arith, length-le_bytes 4 value)))

abbrev pub Apart : List CallPatch → Type 0
Apart [] = Unit
Apart (patch ∷ patches) = All (IsApart patch.operand_pos) patches × Apart patches

-- Patches of which no two have a byte of their operands in common.
done_inj : {t t' : CodeMemory} → ◌≡◌ {A = Outcome LinkError CodeMemory} (done t) (done t') → t ≡ t'
done_inj h = cc

-- The first step of a run that succeeds.
patch_step :
    (map : List (ℕ × ℕ)) (patch : CallPatch) (patches : List CallPatch) (text text' : CodeMemory)
    → PatchIn (length text) patch
    → patch_calls map (patch ∷ patches) text ≡ done text'
    → (index : ℕ) × (function_index patch.temp_func_id map ≡ some index)
      × (patch_calls map patches (splice text patch.operand_pos (le_bytes 4 (u32 index)))
          ≡ done text')
unfolding patch_calls ◌>>=◌
patch_step map patch patches text text' h =
    by_option
      (λ m.
        m ≡ done text'
        → (index : ℕ) × (function_index patch.temp_func_id map ≡ some index)
          × (patch_calls map patches (splice text patch.operand_pos (le_bytes 4 (u32 index)))
              ≡ done text'))
      (function_index patch.temp_func_id map)
      (failed (LinkError.unresolved_function patch.line patch.temp_func_id)) _
      (λ e run. absurd (ground arith))
      (λ index e run. (
        index,
        e,
        subst (λ m. (m >>= λ t. patch_calls map patches t) ≡ done text')
            (patched_once text patch.operand_pos (u32 index) h) run,
      ))

-- Bytes that are apart from every operand stay.
slice-patch_calls :
    (map : List (ℕ × ℕ)) (patches : List CallPatch) (text text' : CodeMemory) (at : ℕ)
    → All (PatchIn (length text)) patches
    → All (IsApart at) patches
    → patch_calls map patches text ≡ done text'
    → slice text' at 4 ≡ slice text at 4
unfolding patch_calls
slice-patch_calls map [] text text' at h apart run = ap (λ t. slice t at 4) (sym (done_inj run))
slice-patch_calls map (patch ∷ patches) text text' at (h, hs) (a, as_) run =
    let (index, e, run') = patch_step map patch patches text text' h run in
    slice-patch_calls map patches (splice text patch.operand_pos (le_bytes 4 (u32 index))) text' at
      (still_in text patch.operand_pos (u32 index) patches hs) as_ run'
    ∙ slice-splice_apart text at (u32 index) patch a

-- The operand of a patch is the index of its function.
abbrev pub Resolved : List (ℕ × ℕ) → CodeMemory → CallPatch → Type 0
Resolved map text patch =
    (index : ℕ) × (function_index patch.temp_func_id map ≡ some index)
    × (le_read 4 text patch.operand_pos ≡ ok (u32 index))

-- Where patching code that holds the operands of all patches succeeds, and no two operands have a
-- byte in common, the operand of every patch reads as the index of its function, modulo 2 ^ 32.
pub le_read-patch_calls :
    (map : List (ℕ × ℕ)) (patches : List CallPatch) (text text' : CodeMemory)
    → All (PatchIn (length text)) patches
    → Apart patches
    → patch_calls map patches text ≡ done text'
    → All (Resolved map text') patches
le_read-patch_calls map [] text text' h apart run = tt
le_read-patch_calls map (patch ∷ patches) text text' (h, hs) (a, apart) run =
    let (index, e, run') = patch_step map patch patches text text' h run in
    let first = splice text patch.operand_pos (le_bytes 4 (u32 index)) in
    let hs' = still_in text patch.operand_pos (u32 index) patches hs in
    let kept_length : length text' ≡ length text =
      subst (Safe Any (λ t. length t ≡ length text)) run
        (patch_calls-Safe map (patch ∷ patches) text (h, hs)) in
    let kept = slice-patch_calls map patches first text' patch.operand_pos hs' a run' in
    (
      (
        index,
        e,
        le_read-eq-ok 4 text' patch.operand_pos (omega (arith, kept_length, h))
            ∙ ap (λ bytes. ok (le_value bytes)) kept
            ∙ ap ok (le_value-slice-splice 4 text patch.operand_pos (u32 index) h (omega arith)),
      ),
      le_read-patch_calls map patches first text' hs' apart run',
    )
