-- ===== src/Tools/Files/Effects.antt =====
-- What the file tools do to the file system.
use picoclawnim.Base.{
  ℕ, ◌≡◌, ◌⊎◌, ◌≤◌, inl, inr, refl, sym, ap, ◌∙◌, arith, true, false, Option, none, some, ◌∷◌, ◌++◌,
  Str, str, str_eq, contains, length, if◌then◌else◌, Map, lookup, insert, lookup-insert,
}
use picoclawnim.Json.{Fields, get_string}
use picoclawnim.Tools.Files.{
  done, refused, Paths, WriteOutcome, all_written, write_failed, read_at, read_path, read_file,
  write_at, write_path, write_file,
}
use picoclawnim.Tools.Files.Edit.{
  count, count_from, replace_first, resolve_path, check_dir, edit_content, edit_found, edit_checked,
  edit_resolved, edit_args, edit_file,
}
use picoclawnim.Tools.Files.Once.{replace_first-splits}

module _ (paths : Paths) where
  edit_content-done :
      (path resolved old new s : Str) (o : ℕ) (w : WriteOutcome) (fs fs' : Map Str) (m : Str)
      → edit_content paths path resolved (o ∷ old) new w s fs ≡ (done m, fs')
      → (contains s (o ∷ old) ≡ true)
        × (count_from (length s) s (o ∷ old) ≤ 1)
        × (fs' ≡ insert (paths.locate resolved) (replace_first s (o ∷ old) new) fs)
  unfolding edit_content count write_at
  edit_content-done path resolved old new s o all_written fs fs' m h = ground arith
  edit_content-done path resolved old new s o (write_failed e left) fs fs' m h = ground arith

  -- What a successful edit did: the file had one place to edit.
  pub Edited : Str → Str → Str → Map Str → Map Str → Type 0
  Edited resolved old new fs fs' =
      (p : Str) × (q : Str) × (lookup (paths.locate resolved) fs ≡ some (p ++ (old ++ q)))
      × (contains q old ≡ false)
      × (fs' ≡ insert (paths.locate resolved) (p ++ (new ++ q)) fs)

  edit_found-done :
      (path resolved old new : Str) (o : ℕ) (fault : Option Str) (w : WriteOutcome) (f : Option Str)
      (fs fs' : Map Str) (m : Str)
      → lookup (paths.locate resolved) fs ≡ f
      → edit_found paths path resolved (o ∷ old) new fault w f fs ≡ (done m, fs')
      → Edited resolved (o ∷ old) new fs fs'
  unfolding edit_found Edited
  edit_found-done path resolved old new o fault w none fs fs' m e h = ground arith
  edit_found-done path resolved old new o (some x) w (some s) fs fs' m e h = ground arith
  edit_found-done path resolved old new o none w (some s) fs fs' m e h =
      let (c, k, r) = edit_content-done path resolved old new s o w fs fs' m h in
      let (p, q, split, rep, z) = replace_first-splits (length s) o s old new (omega arith) c k in
      (p, q, e ∙ ap some split, z, r ∙ rw rep)

  edit_checked-done :
      (path resolved old new : Str) (o : ℕ) (fault : Option Str) (w : WriteOutcome)
      (fs fs' : Map Str) (m : Str) (check : Option Str)
      → edit_checked paths path resolved (o ∷ old) new fault w fs check ≡ (done m, fs')
      → (check ≡ none) × Edited resolved (o ∷ old) new fs fs'
  unfolding edit_checked
  edit_checked-done path resolved old new o fault w fs fs' m (some e) h = ground arith
  edit_checked-done path resolved old new o fault w fs fs' m none h = (
    refl,
    edit_found-done path resolved old new o fault w (lookup (paths.locate resolved) fs) fs fs' m
        refl h,
  )

  edit_resolved-done :
      (dir path old new : Str) (o : ℕ) (fault : Option Str) (w : WriteOutcome) (r : Str ⊎ Str)
      (fs fs' : Map Str) (m : Str)
      → edit_resolved paths dir path (o ∷ old) new fault w fs r ≡ (done m, fs')
      → (resolved : Str) × (r ≡ inr resolved)
        × (check_dir paths dir path resolved ≡ none)
        × Edited resolved (o ∷ old) new fs fs'
  unfolding edit_resolved edit_checked
  edit_resolved-done dir path old new o fault w (inl e) fs fs' m h = ground arith
  edit_resolved-done dir path old new o fault w (inr resolved) fs fs' m h =
      let (c, d) =
        edit_checked-done path resolved old new o fault w fs fs' m
          (check_dir paths dir path resolved) h in
      (resolved, refl, c, d)

  -- A successful edit of a text that is not empty has passed the directory check, the file
  -- contained the text and not again after it, and the file now has the new text in its place; the
  -- other files are as they were.
  pub edit_file-done :
      (dir path old new : Str) (o : ℕ) (args : Fields) (fault : Option Str) (w : WriteOutcome)
      (fs fs' : Map Str) (m : Str)
      → get_string (str "path") args ≡ some path
      → get_string (str "old_text") args ≡ some (o ∷ old)
      → get_string (str "new_text") args ≡ some new
      → edit_file paths dir args fault w fs ≡ (done m, fs')
      → (resolved : Str) × (resolve_path paths path ≡ inr resolved)
        × (check_dir paths dir path resolved ≡ none)
        × Edited resolved (o ∷ old) new fs fs'
  unfolding edit_file edit_args
  edit_file-done dir path old new o args fault w fs fs' m a b c h =
      edit_resolved-done dir path old new o fault w (resolve_path paths path) fs fs' m
        (sym (rw (a, b, c) refl) ∙ h)

  -- Where writes succeed, an edit that is refused leaves every file as it was.
  pub edit_file-refused :
      (dir : Str) (args : Fields) (fault : Option Str) (fs : Map Str) (e : Str)
      → (edit_file paths dir args fault all_written fs).0 ≡ refused e
      → (edit_file paths dir args fault all_written fs).1 ≡ fs
  unfolding edit_file edit_args edit_resolved edit_checked edit_found edit_content write_at
  edit_file-refused dir args fault fs e h = ground arith

  -- What was written is read, from every path that names the file, and the other files are as they
  -- were.
  pub read_file-write_file :
      (args args' : Fields) (path path' content : Str) (fs : Map Str)
      → get_string (str "path") args ≡ some path
      → get_string (str "content") args ≡ some content
      → get_string (str "path") args' ≡ some path'
      → read_file paths args' none (write_file paths args none all_written fs).1 ≡ (
          if str_eq (paths.locate path) (paths.locate path')
          then done content
          else read_file paths args' none fs)
  unfolding read_file read_path read_at write_file write_path write_at
  read_file-write_file args args' path path' content fs a b c =
      rw (a, b, c, lookup-insert (paths.locate path) (paths.locate path') content fs) (ground arith)
