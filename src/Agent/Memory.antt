-- ===== src/Agent/Memory.antt =====
-- pkg/agent/memory.go: the notes that outlive a session. `days ago` gives the date as YYYYMMDD.
use picoclawnim.Base.{
  ℕ, zero, suc, ◌+◌, ◌≡◌, refl, Option, none, some, List, [], ◌∷◌, ◌++◌, Str, str, str_eq,
  str_eq_refl, if◌then◌else◌, take, Map, lookup, insert, lookup-insert,
}
use picoclawnim.Base.Strings.{join_with}

-- The files that can be read, by their paths below the memory directory.
pub record MemoryStore : Type 0 where
  pub files : Map Str

-- How a write ends; after a failure the files may be any.
pub data WriteOutcome : Type 0 where
  written : WriteOutcome
  failed : Map Str → WriteOutcome

abbrev pub memory_file : Str
memory_file = str "MEMORY.md"

-- The file of a date, which `getTodayFile` and `GetRecentDailyNotes` build alike.
unfoldable pub note_file : Str → Str
note_file date = take 6 date ++ (str "/" ++ (date ++ str ".md"))

abbrev content_of : Option Str → Str
content_of none = []
content_of (some s) = s

unfoldable pub read_long_term : MemoryStore → Str
read_long_term m = content_of (lookup memory_file m.files)

unfoldable pub write_at : Str → Str → WriteOutcome → MemoryStore → MemoryStore
write_at path content written m = record m { files = insert path content m.files }
write_at path content (failed fs) m = record m { files = fs }

unfoldable pub write_long_term : Str → WriteOutcome → MemoryStore → MemoryStore
unfolding write_at
write_long_term content w m = write_at memory_file content w m

module _ (ago : ℕ → Str) (heading : Str) where
  unfoldable pub read_today : MemoryStore → Str
  unfolding note_file
  read_today m = content_of (lookup (note_file (ago 0)) m.files)

  -- `heading` is today's date as it is written in the first line of a note.
  unfoldable pub appended : Str → Str → Str
  appended old content =
      if str_eq old []
      then str "# " ++ (heading ++ (str "\n\n" ++ content))
      else old ++ (str "\n" ++ content)

  unfoldable pub append_today : Str → WriteOutcome → MemoryStore → MemoryStore
  unfolding write_at appended
  append_today content w m = write_at (note_file (ago 0)) (appended (read_today m) content) w m

  unfoldable pub note_then : Option Str → List Str → List Str
  note_then none rest = rest
  note_then (some s) rest = s ∷ rest

  -- The notes of the days from `i` on, as far as there are any.
  unfoldable pub notes_from : ℕ → ℕ → MemoryStore → List Str
  unfolding note_then
  notes_from i zero m = []
  notes_from i (suc days) m =
      note_then (lookup (note_file (ago i)) m.files) (notes_from (i + 1) days m)

  abbrev pub rule : Str
  rule = str "\n\n---\n\n"

  unfoldable pub get_recent_daily_notes : ℕ → MemoryStore → Str
  unfolding notes_from
  get_recent_daily_notes days m = join_with rule (notes_from 0 days m)

  unfoldable pub section : Str → Str → List Str
  section title content = if str_eq content [] then [] else (title ++ content) ∷ []

  unfoldable pub memory_parts : MemoryStore → List Str
  unfolding section read_long_term get_recent_daily_notes
  memory_parts m =
      section (str "## Long-term Memory\n\n") (read_long_term m)
      ++ section (str "## Recent Daily Notes\n\n") (get_recent_daily_notes 3 m)

  unfoldable pub memory_context : List Str → Str
  memory_context [] = []
  memory_context (p ∷ ps) = str "# Memory\n\n" ++ join_with rule (p ∷ ps)

  unfoldable pub get_memory_context : MemoryStore → Str
  unfolding memory_context memory_parts
  get_memory_context m = memory_context (memory_parts m)

  -- After a note was written, today's note is the old one (or the heading of a new day) and what was
  -- added, and every other file is what it was.
  pub append_today-lookup :
      (content path : Str) (m : MemoryStore)
      → lookup path (append_today content written m).files ≡ (
          if str_eq (note_file (ago 0)) path
          then some (appended (read_today m) content)
          else lookup path m.files)
  unfolding append_today
  append_today-lookup content path m =
      lookup-insert (note_file (ago 0)) path (appended (read_today m) content) m.files

  -- A note that was written today is the first of the recent notes, whatever the number of days.
  pub notes_from-append_today :
      (content : Str) (days : ℕ) (m : MemoryStore)
      → (rest : List Str) × (notes_from 0 (suc days) (append_today content written m)
          ≡ appended (read_today m) content ∷ rest)
  unfolding notes_from note_then
  notes_from-append_today content days m = (
    notes_from 1 days (append_today content written m),
    rw (append_today-lookup content (note_file (ago 0)) m, str_eq_refl (note_file (ago 0))) refl,
  )
