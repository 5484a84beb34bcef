-- ===== src/Json.antt =====
-- JSON values as Go decodes them into interface{} (`map[string]interface{}` and the like), which
-- pkg/providers, pkg/tools and pkg/migrate read. A float64 is finite there: a fraction with a power
-- of two below.
use picoclawnim.Base.{
  ℕ, suc, ◌/◌, ◌^◌, Bool, Option, none, some, List, [], ◌∷◌, Str, str_eq, if◌then◌else◌,
}
use picoclawnim.Base.Int.{ℤ, pos, negsuc, sub_ℕ}

-- mantissa / 2 ^ scale
pub record Float64 : Type 0 where
  pub mantissa : ℤ
  pub scale : ℕ

-- `int64(f)`, towards zero, where the result is in range.
unfoldable pub truncated : Float64 → ℤ
truncated f = elim f.mantissa [
  | pos n ↦ pos (n / 2 ^ f.scale)
  | negsuc n ↦ sub_ℕ 0 (suc n / 2 ^ f.scale)
]

mutual
  pub data Value : Type 0 where
    null : Value
    bool : Bool → Value
    num : Float64 → Value
    text : Str → Value
    arr : Items → Value
    obj : Fields → Value

  pub data Items : Type 0 where
    nil : Items
    cons : Value → Items → Items

  pub data Fields : Type 0 where
    end : Fields
    field : Str → Value → Fields → Fields

-- `data[key]`
unfoldable pub get_field : Str → Fields → Option Value
get_field k end = none
get_field k (field j v fs) = if str_eq j k then some v else get_field k fs

-- The type assertions `v.(string)`, `v.(float64)`, `v.(bool)`, `v.(map[string]interface{})` of an
-- entry, as `getString` and its kin of pkg/migrate/config.go.
unfoldable pub as_text : Option Value → Option Str
as_text (some (text s)) = some s
as_text _ = none

unfoldable pub as_num : Option Value → Option Float64
as_num (some (num f)) = some f
as_num _ = none

unfoldable pub as_bool : Option Value → Option Bool
as_bool (some (bool b)) = some b
as_bool _ = none

unfoldable pub as_obj : Option Value → Option Fields
as_obj (some (obj fs)) = some fs
as_obj _ = none

unfoldable pub get_string : Str → Fields → Option Str
unfolding as_text
get_string k fs = as_text (get_field k fs)

unfoldable pub get_float : Str → Fields → Option Float64
unfolding as_num
get_float k fs = as_num (get_field k fs)

unfoldable pub get_bool : Str → Fields → Option Bool
unfolding as_bool
get_bool k fs = as_bool (get_field k fs)

unfoldable pub get_map : Str → Fields → Option Fields
unfolding as_obj
get_map k fs = as_obj (get_field k fs)

-- `getStringSlice`: the strings of an array, and the empty list for anything else.
texts : Items → List Str
texts nil = []
texts (cons (text s) xs) = s ∷ texts xs
texts (cons v xs) = texts xs

as_texts : Option Value → List Str
unfolding texts
as_texts (some (arr xs)) = texts xs
as_texts _ = []

unfoldable pub get_string_slice : Str → Fields → List Str
unfolding as_texts
get_string_slice k fs = as_texts (get_field k fs)
