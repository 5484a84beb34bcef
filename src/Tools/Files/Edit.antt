-- ===== src/Tools/Files/Edit.antt =====
-- `EditFileTool` of pkg/tools/edit.go, with the functions of Go's package strings that it calls.
use picoclawnim.Base.{
  ℕ, zero, suc, ◌⊎◌, inl, inr, Bool, not, Option, none, some, [], ◌∷◌, ◌++◌, Str, str, str_eq,
  has_prefix, contains, if◌then◌else◌, ltb, length, drop, Map, lookup,
}
use picoclawnim.Json.{Fields, get_string}
use picoclawnim.Tools.Files.{Outcome, refused, Paths, WriteOutcome, write_at}

-- strings.Count of a text that is not empty: the occurrences that do not overlap, from the left,
-- with the length of the text as fuel.
unfoldable pub count_from : ℕ → Str → Str → ℕ
count_from zero s sub = 0
count_from (suc n) [] sub = 0
count_from (suc n) (c ∷ s) sub =
    let here = count_from n (drop (length sub) (c ∷ s)) sub in
    let later = count_from n s sub in if has_prefix (c ∷ s) sub then suc here else later

-- strings.Replace(s, old, new, 1)
unfoldable pub replace_first : Str → Str → Str → Str
replace_first [] old new = if has_prefix [] old then new else []
replace_first (c ∷ s) old new =
    let rest = replace_first s old new in
    if has_prefix (c ∷ s) old then new ++ drop (length old) (c ∷ s) else c ∷ rest

-- filepath.IsAbs on Unix
unfoldable pub is_abs : Str → Bool
is_abs path = has_prefix path (str "/")

module _ (paths : Paths) where
  -- strings.Count, of the empty text one more than there are runes.
  unfoldable pub count : Str → Str → ℕ
  count s [] = suc (paths.rune_count s)
  count s (c ∷ sub) = count_from (length s) s (c ∷ sub)

  -- The absolute form of the path, or an error.
  unfoldable pub resolve_path : Str → Str ⊎ Str
  resolve_path path = if is_abs path then inr (paths.clean path) else paths.abs path

  -- The guard against paths outside the directory that the tool is restricted to: an error, if any.
  unfoldable pub under : Str → Str → Str → Str ⊎ Str → Option Str
  under dir path resolved (inl e) = some (str "failed to resolve allowed directory: " ++ e)
  under dir path resolved (inr allowed) =
      if not (has_prefix resolved allowed)
      then some (str "path " ++ (path ++ (str " is outside allowed directory " ++ dir)))
      else none

  unfoldable pub check_dir : Str → Str → Str → Option Str
  unfolding under
  check_dir dir path resolved =
      if str_eq dir [] then none else under dir path resolved (paths.abs dir)

  -- The change of the content that was read.
  unfoldable pub edit_content :
      Str → Str → Str → Str → WriteOutcome → Str → Map Str → Outcome × Map Str
  unfolding count replace_first
  edit_content path resolved old new w s fs =
      if not (contains s old)
      then (refused (str "old_text not found in file. Make sure it matches exactly"), fs)
      else if ltb 1 (count s old)
      then (
        refused (
            str "old_text appears "
            ++ (paths.decimal (count s old)
                ++ str " times. Please provide more context to make it unique")),
        fs,
      )
      else write_at paths resolved (replace_first s old new) w (str "Successfully edited " ++ path)
          fs

  unfoldable pub edit_found :
      Str → Str → Str → Str → Option Str → WriteOutcome → Option Str → Map Str → Outcome × Map Str
  unfolding edit_content
  edit_found path resolved old new fault w none fs = (refused (str "file not found: " ++ path), fs)
  edit_found path resolved old new (some e) w (some s) fs =
      (refused (str "failed to read file: " ++ e), fs)
  edit_found path resolved old new none w (some s) fs = edit_content path resolved old new w s fs

  unfoldable pub edit_checked :
      Str → Str → Str → Str → Option Str → WriteOutcome → Map Str → Option Str → Outcome × Map Str
  unfolding edit_found
  edit_checked path resolved old new fault w fs (some e) = (refused e, fs)
  edit_checked path resolved old new fault w fs none =
      edit_found path resolved old new fault w (lookup (paths.locate resolved) fs) fs

  unfoldable pub edit_resolved :
      Str → Str → Str → Str → Option Str → WriteOutcome → Map Str → Str ⊎ Str → Outcome × Map Str
  unfolding edit_checked check_dir
  edit_resolved dir path old new fault w fs (inl e) =
      (refused (str "failed to resolve path: " ++ e), fs)
  edit_resolved dir path old new fault w fs (inr resolved) =
      edit_checked path resolved old new fault w fs (check_dir dir path resolved)

  unfoldable pub edit_args :
      Str
      → Option Str
      → Option Str
      → Option Str
      → Option Str
      → WriteOutcome
      → Map Str
      → Outcome × Map Str
  unfolding edit_resolved resolve_path
  edit_args dir none old new fault w fs = (refused (str "path is required"), fs)
  edit_args dir (some path) none new fault w fs = (refused (str "old_text is required"), fs)
  edit_args dir (some path) (some old) none fault w fs = (refused (str "new_text is required"), fs)
  edit_args dir (some path) (some old) (some new) fault w fs =
      edit_resolved dir path old new fault w fs (resolve_path path)

  -- `EditFileTool.Execute`: `dir` is the tool's allowedDir, `fault` an error of `os.ReadFile`.
  unfoldable pub edit_file : Str → Fields → Option Str → WriteOutcome → Map Str → Outcome × Map Str
  unfolding edit_args
  edit_file dir args fault w fs =
      edit_args dir (get_string (str "path") args) (get_string (str "old_text") args)
        (get_string (str "new_text") args) fault w fs
