-- ===== src/Image/Laws.antt =====
-- linkedProgramToImage and linkedProgramFromImage of cova/image.go, one after the other.
use go_lcc.Base.{
  ℕ, ◌≡◌, refl, ap, arith, sym, Bool, true, false, not, leb, ◌==◌, u32, length, List, [], ◌∷◌, map,
  some, none,
}
use mathlib.Core.Path.{ap₂, subst}
use go_lcc.Status.{VmStatus, Result, ok, err, panic}
use go_lcc.Kinds.{ValueKind, kind_byte, kind_of_byte, is_kind}
use go_lcc.Program.{LinkedProgram, ScriptFunctionDescriptor}
use go_lcc.Image.{
  ProgramImage, ProgramImageFunction, reject_if, and_then, validate_program_image,
  image_param_kinds_from_kinds, image_function_from_descriptor, image_functions, image_of,
  linked_program_to_image, descriptor_of, linked_program_from_image,
}

-- What holds of a result that there is.
abbrev pub Holds : {A : Type 0} → (A → Type 0) → Result A → Type 0
Holds Q (ok a) = Q a
Holds Q (err c) = Unit
Holds Q panic = Unit

reject_if-Holds :
    {A : Type 0} (Q : A → Type 0) (b : Bool) (c : VmStatus) (r : Result A)
    → (b ≡ false → Holds Q r)
    → Holds Q (reject_if b c r)
reject_if-Holds Q true c r k = tt
reject_if-Holds Q false c r k = k refl

pub and_then-Holds :
    {A B : Type 0} (P : A → Type 0) (Q : B → Type 0) (r : Result A) (f : A → Result B)
    → Holds P r
    → ((a : A) → r ≡ ok a → P a → Holds Q (f a))
    → Holds Q (and_then r f)
and_then-Holds P Q (ok a) f h k = k a refl h
and_then-Holds P Q (err c) f h k = tt
and_then-Holds P Q panic f h k = tt

kind_of_byte-kind_byte : (k : ValueKind) → not (is_kind k) ≡ false → kind_of_byte (kind_byte k) ≡ k
unfolding is_kind kind_byte kind_of_byte
kind_of_byte-kind_byte (ValueKind.other n) h = cc
kind_of_byte-kind_byte _ h = refl

param_kinds-back :
    (kinds : List ValueKind)
    → Holds (λ bytes. map kind_of_byte bytes ≡ kinds) (image_param_kinds_from_kinds kinds)
unfolding image_param_kinds_from_kinds
param_kinds-back [] = refl
param_kinds-back (kind ∷ kinds) = reject_if-Holds _ (not (is_kind kind)) _ _ λ named.
    and_then-Holds _ _ (image_param_kinds_from_kinds kinds) _ (param_kinds-back kinds)
      λ bytes _ h. ap₂ ◌∷◌ (kind_of_byte-kind_byte kind named) h

descriptor-back :
    (f : ScriptFunctionDescriptor)
    → Holds (λ g. descriptor_of g ≡ f) (image_function_from_descriptor f)
unfolding image_function_from_descriptor
descriptor-back f =
    reject_if-Holds _ (not (is_kind f.return_kind)) _ _
      λ named. ap (λ k. record f { return_kind = k }) (kind_of_byte-kind_byte f.return_kind named)

functions-back :
    (fs : List ScriptFunctionDescriptor)
    → Holds (λ gs. map descriptor_of gs ≡ fs) (image_functions fs)
unfolding image_functions
functions-back [] = refl
functions-back (f ∷ fs) =
    and_then-Holds _ _ (image_function_from_descriptor f) _ (descriptor-back f) λ g _ hg.
      and_then-Holds _ _ (image_functions fs) _ (functions-back fs) λ gs _ hgs. ap₂ ◌∷◌ hg hgs

module _ (p : LinkedProgram) where
  -- The image of a program whose parts are read back, once it is valid.
  from_image-back :
      (functions : List ProgramImageFunction) (param_kinds : List ℕ)
      → not (p.const_byte_size == u32 (length p.const_data)) ≡ false
      → not (p.data_byte_size == u32 (length p.data_data)) ≡ false
      → map descriptor_of functions ≡ p.functions
      → map kind_of_byte param_kinds ≡ p.param_kinds
      → validate_program_image (some (image_of p functions param_kinds)) ≡ ok tt
      → linked_program_from_image (some (image_of p functions param_kinds))
        ≡ ok (record p { bss_size = 0; debug_symbols = none })
  unfolding linked_program_from_image
  from_image-back functions param_kinds tc td hf hk valid =
      let hc : p.const_byte_size ≡ u32 (length p.const_data) = ground arith in
      let hd : p.data_byte_size ≡ u32 (length p.data_data) = ground arith in
      rw valid (
        ap ok (λ i. record p {
          functions = hf i;
          param_kinds = hk i;
          const_byte_size = sym hc i;
          data_byte_size = sym hd i;
          bss_size = 0;
          debug_symbols = none;
        }))

  to_image-Holds :
      Holds
        (λ image.
          linked_program_from_image (some image)
          ≡ ok (record p { bss_size = 0; debug_symbols = none }))
        (linked_program_to_image (some p))
  unfolding linked_program_to_image
  to_image-Holds =
      reject_if-Holds _ (not (p.const_byte_size == u32 (length p.const_data))) _ _ λ tc.
        reject_if-Holds _ (not (p.data_byte_size == u32 (length p.data_data))) _ _ λ td.
          reject_if-Holds _ (leb (u32 (length p.functions)) p.entry_point) _ _ λ _.
            and_then-Holds _ _ (image_functions p.functions) _ (functions-back p.functions)
              λ fs _ hf.
                and_then-Holds _ _ (image_param_kinds_from_kinds p.param_kinds) _
                  (param_kinds-back p.param_kinds)
                  λ ks _ hk.
                    and_then-Holds (λ _. Unit {0}) _
                      (validate_program_image (some (image_of p fs ks))) _ (any _)
                      λ _ valid _. from_image-back fs ks tc td hf hk valid
    where
      any : (r : Result (Unit {0})) → Holds (λ _. Unit {0}) r
      any (ok a) = tt
      any (err c) = tt
      any panic = tt

-- Where a linked program has an image, the image is read back as the program, but for what no image
-- holds: the number of slots of its BSS segment, which is read back as 0, and its debug symbols, which
-- are read back as nil.
pub linked_program_from_image-linked_program_to_image :
    (p : LinkedProgram) (image : ProgramImage)
    → linked_program_to_image (some p) ≡ ok image
    → linked_program_from_image (some image) ≡ ok (record p { bss_size = 0; debug_symbols = none })
linked_program_from_image-linked_program_to_image p image e =
    subst
      (Holds (λ i.
        linked_program_from_image (some i) ≡ ok (record p { bss_size = 0; debug_symbols = none })))
      e (to_image-Holds p)
