-- ===== src/Tools/Tests.antt =====
-- The theorems on the tools (pkg/tools) at concrete arguments and files.
use picoclawnim.Base.{
  ◌≡◌, inr, refl, none, some, [], ◌∷◌, Str, str, str_eq, has_prefix, contains, Map, lookup, insert,
}
use picoclawnim.Json.{Fields, text, end, field, get_field, get_string, as_text}
use picoclawnim.Tools.Files.{done, refused, Paths, all_written, write_at}
use picoclawnim.Tools.Files.Edit.{
  count, count_from, replace_first, is_abs, resolve_path, under, check_dir, edit_content,
  edit_found, edit_checked, edit_resolved, edit_args, edit_file,
}
use picoclawnim.Tools.Files.Effects.{Edited, edit_file-done}

-- A system where every path is its own file.
abbrev plain_paths : Paths
plain_paths = record {
  locate = λ p. p;
  clean = λ p. p;
  abs = λ p. inr p;
  rune_count = λ s. 0;
  decimal = λ n. str "2";
}

abbrev edit_args_of : Str → Str → Str → Fields
edit_args_of path old new =
    field (str "path") (text path)
      (field (str "old_text") (text old) (field (str "new_text") (text new) end))

abbrev disk : Map Str
disk = (str "/ws/a", str "one two") ∷ []

abbrev edited_disk : Map Str
edited_disk = (str "/ws/a", str "one 2!") ∷ []

edit_works :
    edit_file plain_paths
      (str "/ws")
      (edit_args_of (str "/ws/a") (str "two") (str "2!"))
      none
      all_written
      disk
    ≡ (done (str "Successfully edited /ws/a"), edited_disk)
unfolding edit_file edit_args edit_resolved edit_checked edit_found edit_content check_dir under
    resolve_path is_abs count count_from replace_first write_at get_string as_text get_field
    contains has_prefix str_eq lookup insert
edit_works = refl

path_given :
    get_string (str "path") (edit_args_of (str "/ws/a") (str "two") (str "2!")) ≡ some (str "/ws/a")
unfolding get_string as_text get_field str_eq
path_given = refl

old_given :
    get_string (str "old_text") (edit_args_of (str "/ws/a") (str "two") (str "2!"))
    ≡ some (str "two")
unfolding get_string as_text get_field str_eq
old_given = refl

new_given :
    get_string (str "new_text") (edit_args_of (str "/ws/a") (str "two") (str "2!"))
    ≡ some (str "2!")
unfolding get_string as_text get_field str_eq
new_given = refl

edit_file-done_example :
    (resolved : Str) × (resolve_path plain_paths (str "/ws/a") ≡ inr resolved)
    × (check_dir plain_paths (str "/ws") (str "/ws/a") resolved ≡ none)
    × Edited plain_paths resolved (str "two") (str "2!") disk edited_disk
edit_file-done_example =
    edit_file-done plain_paths (str "/ws") (str "/ws/a") (str "wo") (str "2!") 116
      (edit_args_of (str "/ws/a") (str "two") (str "2!")) none all_written disk edited_disk
      (str "Successfully edited /ws/a") path_given old_given new_given edit_works

not_found :
    (edit_file plain_paths
      (str "/ws")
      (edit_args_of (str "/ws/a") (str "six") (str "6"))
      none
      all_written
      disk).0
    ≡ refused (str "old_text not found in file. Make sure it matches exactly")
unfolding edit_file edit_args edit_resolved edit_checked edit_found edit_content check_dir under
    resolve_path is_abs count count_from replace_first write_at get_string as_text get_field
    contains has_prefix str_eq lookup insert
not_found = refl

abbrev sibling_args : Fields
sibling_args = edit_args_of (str "/ws-old/a") (str "two") (str "2!")
