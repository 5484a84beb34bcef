-- ===== src/Tools/Files.antt =====
-- The tools that read, write and append to files: pkg/tools/filesystem.go and the second half of
-- pkg/tools/edit.go. A file system maps files to their contents; a file that cannot be read has an
-- entry, and the call says that the reading fails.
pub mod Edit
pub mod Once
pub mod Effects
use picoclawnim.Base.{
  ℕ, Bool, Option, none, some, List, [], ◌∷◌, ◌++◌, ◌⊎◌, Str, str, take, Map, lookup, insert,
}
use picoclawnim.Json.{Fields, get_string}

-- What a call returns: a text, or an error with its text.
pub data Outcome : Type 0 where
  done : Str → Outcome
  refused : Str → Outcome

-- What the file tools use of the operating system and of the standard library: the file that a path
-- names, `filepath.Clean`, `filepath.Abs` (which may fail), `utf8.RuneCountInString` and `%d`.
pub record Paths : Type 0 where
  pub locate : Str → Str
  pub clean : Str → Str
  pub abs : Str → Str ⊎ Str
  pub rune_count : Str → ℕ
  pub decimal : ℕ → Str

-- How opening and writing a file ends. After a failure the file may have any content.
pub data WriteOutcome : Type 0 where
  all_written : WriteOutcome
  write_failed : Str → Map Str → WriteOutcome

module _ (paths : Paths) where
  -- `os.ReadFile`, where `fault` is an error of the system.
  unfoldable pub read_at : Option Str → Option Str → Outcome
  read_at fault none = refused (str "failed to read file: no such file or directory")
  read_at none (some s) = done s
  read_at (some e) (some s) = refused (str "failed to read file: " ++ e)

  unfoldable pub read_path : Option Str → Option Str → Map Str → Outcome
  unfolding read_at
  read_path none fault fs = refused (str "path is required")
  read_path (some path) fault fs = read_at fault (lookup (paths.locate path) fs)

  -- `ReadFileTool.Execute`
  unfoldable pub read_file : Fields → Option Str → Map Str → Outcome
  unfolding read_path
  read_file args fault fs = read_path (get_string (str "path") args) fault fs

  -- `os.WriteFile`
  unfoldable pub write_at : Str → Str → WriteOutcome → Str → Map Str → Outcome × Map Str
  write_at path content all_written message fs =
      (done message, insert (paths.locate path) content fs)
  write_at path content (write_failed e left) message fs =
      (refused (str "failed to write file: " ++ e), left)

  unfoldable pub write_path :
      Option Str → Option Str → Option Str → WriteOutcome → Map Str → Outcome × Map Str
  unfolding write_at
  write_path none content mkdir w fs = (refused (str "path is required"), fs)
  write_path (some path) none mkdir w fs = (refused (str "content is required"), fs)
  write_path (some path) (some content) (some e) w fs =
      (refused (str "failed to create directory: " ++ e), fs)
  write_path (some path) (some content) none w fs =
      write_at path content w (str "File written successfully") fs

  -- `WriteFileTool.Execute`, where `mkdir` is an error of `os.MkdirAll`.
  unfoldable pub write_file : Fields → Option Str → WriteOutcome → Map Str → Outcome × Map Str
  unfolding write_path
  write_file args mkdir w fs =
      write_path (get_string (str "path") args) (get_string (str "content") args) mkdir w fs

  content_of : Option Str → Str
  content_of none = []
  content_of (some s) = s

  unfoldable pub append_at :
      Str → Str → WriteOutcome → Option Str → Str → Map Str → Outcome × Map Str
  unfolding content_of
  append_at path content all_written old file fs =
      (done (str "Successfully appended to " ++ path), insert file (content_of old ++ content) fs)
  append_at path content (write_failed e left) old file fs =
      (refused (str "failed to append to file: " ++ e), left)

  unfoldable pub append_path :
      Option Str → Option Str → Option Str → WriteOutcome → Map Str → Outcome × Map Str
  unfolding append_at
  append_path none content creation w fs = (refused (str "path is required"), fs)
  append_path (some path) none creation w fs = (refused (str "content is required"), fs)
  append_path (some path) (some content) (some e) w fs =
      (refused (str "failed to open file: " ++ e), fs)
  append_path (some path) (some content) none w fs =
      let file = paths.locate (paths.clean path) in
      append_at path content w (lookup file fs) file fs

  -- `AppendFileTool.Execute`, where `creation` is an error of `os.OpenFile`.
  unfoldable pub append_file : Fields → Option Str → WriteOutcome → Map Str → Outcome × Map Str
  unfolding append_path
  append_file args creation w fs =
      append_path (get_string (str "path") args) (get_string (str "content") args) creation w fs
