-- ===== src/Migrate/Keys.antt =====
-- `camelToSnake`, `convertKeysToSnake` and `rewriteWorkspacePath` of pkg/migrate/config.go. Keys are
-- ASCII: unicode.IsUpper and its kin are the tests on ASCII letters.
use picoclawnim.Base.{
  ℕ, ◌+◌, Bool, false, ◌&&◌, ◌||◌, Option, none, some, [], ◌∷◌, Str, str, str_eq, if◌then◌else◌,
  leb,
}
use picoclawnim.Json.{Value, Items, Fields, null, bool, num, text, arr, obj, nil, cons, end, field}
use picoclawnim.Tools.Files.Edit.{replace_first}

unfoldable pub is_upper : ℕ → Bool
is_upper c = leb 65 c && leb c 90

unfoldable pub is_lower : ℕ → Bool
is_lower c = leb 97 c && leb c 122

unfoldable pub is_digit : ℕ → Bool
is_digit c = leb 48 c && leb c 57

unfoldable pub next_is_lower : Str → Bool
unfolding is_lower
next_is_lower [] = false
next_is_lower (c ∷ s) = is_lower c

-- A word starts at the letter between its neighbours.
unfoldable pub starts_word : Option ℕ → Str → Bool
unfolding is_lower is_digit is_upper next_is_lower
starts_word none rest = false
starts_word (some prev) rest = is_lower prev || is_digit prev || is_upper prev && next_is_lower rest

-- The loop of `camelToSnake`, with the character before.
unfoldable pub snake : Option ℕ → Str → Str
unfolding is_upper starts_word
snake prev [] = []
snake prev (c ∷ s) =
    let rest = snake (some c) s in
    if is_upper c
    then if starts_word prev s then 95 ∷ (c + 32) ∷ rest else (c + 32) ∷ rest
    else c ∷ rest

unfoldable pub camel_to_snake : Str → Str
unfolding snake
camel_to_snake s = snake none s

-- `m[k] = v`
unfoldable pub set_field : Str → Value → Fields → Fields
set_field k v end = field k v end
set_field k v (field j w fs) =
    let rest = set_field k v fs in if str_eq j k then field k v fs else field j w rest

-- `fs` lists the entries of a map in the order in which the loop meets them; the second argument is
-- the map made so far.
unfoldable mutual
  pub convert_keys_to_snake : Value → Value
  convert_keys_to_snake (obj fs) = obj (convert_fields fs end)
  convert_keys_to_snake (arr xs) = arr (convert_items xs)
  convert_keys_to_snake null = null
  convert_keys_to_snake (bool b) = bool b
  convert_keys_to_snake (num f) = num f
  convert_keys_to_snake (text s) = text s

  pub convert_items : Items → Items
  convert_items nil = nil
  convert_items (cons v xs) = cons (convert_keys_to_snake v) (convert_items xs)

  pub convert_fields : Fields → Fields → Fields
  convert_fields end made = made
  convert_fields (field k v fs) made =
      convert_fields fs (set_field (camel_to_snake k) (convert_keys_to_snake v) made)

unfoldable pub rewrite_workspace_path : Str → Str
rewrite_workspace_path path = replace_first path (str ".openclaw") (str ".picoclaw")
