-- ===== src/Base/Json.antt =====
-- Values of type `any` as `encoding/json` makes them, and the type assertions the code does on them.
use mathlib.Core.Bool.{Bool, false, ◌||◌}
use mathlib.Core.List.{List, [], ◌∷◌}
use mathlib.Core.Option.{Option, none, some}
use nomad_dev.Base.Strings.{Text, text_eq}
use nomad_dev.Base.Int.{ℤ}
use nomad_dev.Base.Tests.{if◌then◌else◌}

-- A number is kept by its integer part, which is all that the code reads of one.
mutual
  pub data Json : Type 0 where
    null : Json
    bool : Bool → Json
    num : ℤ → Json
    str : Text → Json
    arr : Items → Json
    obj : Fields → Json

  pub data Items : Type 0 where
    nil : Items
    cons : Json → Items → Items

  pub data Fields : Type 0 where
    end : Fields
    field : Text → Json → Fields → Fields

abbrev pub to_list : Items → List Json
to_list nil = []
to_list (cons v vs) = v ∷ to_list vs

-- `m[key]` on a `map[string]any`; a missing key reads as nil.
unfoldable pub get : Text → Fields → Json
get k end = null
get k (field j v fs) = if text_eq j k then v else get k fs

-- `_, ok := m[key]`.
unfoldable pub has_key : Text → Fields → Bool
has_key k end = false
has_key k (field j v fs) = text_eq j k || has_key k fs

-- `v.(string)`, `v.([]any)` and `v.(map[string]any)`.
abbrev pub as_str : Json → Option Text
as_str (str s) = some s
as_str _ = none

abbrev pub as_arr : Json → Option (List Json)
as_arr (arr vs) = some (to_list vs)
as_arr _ = none

abbrev pub as_obj : Json → Option Fields
as_obj (obj fs) = some fs
as_obj _ = none

-- `s, _ := v.(string)`.
abbrev pub str_or_empty : Json → Text
str_or_empty (str s) = s
str_or_empty _ = []
