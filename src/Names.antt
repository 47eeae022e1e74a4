-- ===== src/Names.antt =====
-- Go maps with string keys: lists of pairs, the latest assignment first.
use Prim.Native.String.{String}
use text.Mathlib.Text.{◌==◌}
use go_lcc.Base.{List, [], ◌∷◌, Bool, Option, none, some, if◌then◌else◌}

abbrev pub same_name : String → String → Bool
same_name = ◌==◌

abbrev pub NameMap : Type 0 → Type 0
NameMap A = List (String × A)

-- value, ok := m[name]
unfoldable pub find : {A : Type 0} → String → NameMap A → Option A
find name [] = none
find name ((key, value) ∷ rest) =
    let later = find name rest in if name == key then some value else later

-- m[name] = value
unfoldable pub assign : {A : Type 0} → String → A → NameMap A → NameMap A
assign name value m = (name, value) ∷ m
