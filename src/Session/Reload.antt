-- ===== src/Session/Reload.antt =====
-- A saved session is there again in a new process.
use mathlib.Core.List
use picoclawnim.Base.{
  ◌≡◌, refl, sym, ap, ◌∙◌, false, Option, none, some, [], ◌∷◌, ◌++◌, arith, Str, str, str_eq,
  str_eq_iff, str_eq_refl, if◌then◌else◌, ◌==◌, Map, lookup, insert, lookup-insert,
}
use picoclawnim.Utils.Runes.{runes, of_runes, runes-of_runes, runes-IsScalar}
use picoclawnim.Session.Encode.{valid_text, reencoded}
use picoclawnim.Session.Manager.{Session, SessionFile, holds, junk, directory, SessionManager}
use picoclawnim.Session.Storage.{
  SaveOutcome, written, refused, truncated, write_file, has_slash, file_name, save, ext, ext_from,
  load_file, load_files, new_session_manager,
}

ext_from-json : (best key : Str) → ext_from best (key ++ str ".json") ≡ str ".json"
unfolding ext_from
ext_from-json best [] = refl
ext_from-json best (c ∷ key) =
    ext_from-json (if c == b'.' then c ∷ (key ++ str ".json") else best) key

ext-file_name : (key : Str) → ext (file_name key) ≡ str ".json"
unfolding ext
ext-file_name key = ext_from-json [] key

file_name_inj : (s t : Str) → file_name s ≡ file_name t → s ≡ t
file_name_inj s t e = List.append_cancel_right s t (str ".json") e

-- Every session file is named after the key in it, and no name occurs twice.
abbrev Named : Str → SessionFile → Type 0
Named name (holds s) = name ≡ file_name s.key
Named name junk = Unit
Named name directory = Unit

abbrev pub IsStore : Map SessionFile → Type 0
IsStore [] = Unit
IsStore ((name, f) ∷ dir) = Named name f × (lookup name dir ≡ none) × IsStore dir

abbrev from_file : Option SessionFile → Option Session → Option Session
from_file none p = p
from_file (some (holds s)) p = some s
from_file (some junk) p = p
from_file (some directory) p = p

from_file_step :
    (k name : Str) (f : SessionFile) (dir : Map SessionFile) (m : Map Session)
    → Named name f
    → lookup name dir ≡ none
    → from_file (lookup (file_name k) dir) (lookup k (load_file name f m))
      ≡ from_file
          (if str_eq name (file_name k) then some f else lookup (file_name k) dir)
          (lookup k m)
unfolding load_file
from_file_step k name (holds s) dir m h fresh = ground (
  arith,
  ext-file_name s.key,
  str_eq_refl (str ".json"),
  lookup-insert s.key k s m,
  str_eq_iff s.key k,
  str_eq_iff name (file_name k),
  file_name_inj s.key k,
)
from_file_step k name junk dir m h fresh = ground (arith, str_eq_iff name (file_name k))
from_file_step k name directory dir m h fresh = ground (arith, str_eq_iff name (file_name k))

lookup-load_files :
    (k : Str) (dir : Map SessionFile) (m : Map Session)
    → IsStore dir
    → lookup k (load_files dir m) ≡ from_file (lookup (file_name k) dir) (lookup k m)
unfolding load_files lookup
lookup-load_files k [] m h = refl
lookup-load_files k ((name, f) ∷ dir) m h =
    lookup-load_files k dir (load_file name f m) (h.2) ∙ from_file_step k name f dir m h.0 h.1

insert-IsStore :
    (name : Str) (f : SessionFile) (dir : Map SessionFile)
    → Named name f
    → IsStore dir
    → IsStore (insert name f dir)
unfolding insert lookup
insert-IsStore name f [] n h = (n, refl, tt)
insert-IsStore name f ((i, g) ∷ dir) n h = ground (
  arith,
  str_eq_iff i name,
  str_eq_iff name i,
  lookup-insert name i f dir,
  insert-IsStore name f dir n h.2,
)

reencoded-key : (s : Session) → (reencoded s).key ≡ valid_text s.key
unfolding reencoded
reencoded-key s = refl

-- The file of a session whose key is valid UTF-8 is named after the key in it.
reencoded-Named :
    (s : Session) → valid_text s.key ≡ s.key → Named (file_name s.key) (holds (reencoded s))
reencoded-Named s v = ap file_name (sym v ∙ sym (reencoded-key s))

write_file-IsStore :
    (s : Session) (w : SaveOutcome) (dir : Map SessionFile)
    → valid_text s.key ≡ s.key
    → IsStore dir
    → IsStore (write_file (file_name s.key) s w dir)
unfolding write_file
write_file-IsStore s written dir v h =
    insert-IsStore (file_name s.key) (holds (reencoded s)) dir (reencoded-Named s v) h
write_file-IsStore s refused dir v h = h
write_file-IsStore s truncated dir v h = insert-IsStore (file_name s.key) junk dir tt h

-- Whatever becomes of the write, `Save` of a session with a valid key keeps the directory a store: each session in the file of its
-- key, and one file of a name.
pub save-IsStore :
    (s : Session) (w : SaveOutcome) (sm : SessionManager)
    → valid_text s.key ≡ s.key
    → IsStore sm.dir
    → IsStore (save s w sm).0.dir
unfolding save
save-IsStore s w sm v h = ground (arith, write_file-IsStore s w sm.dir v h)

-- A new process on the directory after a successful `Save` of a session, whose key is valid UTF-8
-- without a slash, finds that session under its key, with U+FFFD in its texts for each byte that is
-- in no valid sequence, and under every other key what the directory held before. The directory has
-- one file of a name, and each session in the file named after its key, as `Save` leaves it.
pub reload-save :
    (s : Session) (sm : SessionManager) (k : Str)
    → IsStore sm.dir
    → str_eq sm.storage [] ≡ false
    → has_slash s.key ≡ false
    → valid_text s.key ≡ s.key
    → lookup k (new_session_manager sm.storage (save s written sm).0.dir).sessions ≡ (
        if str_eq s.key k
        then some (reencoded s)
        else lookup k (new_session_manager sm.storage sm.dir).sessions)
unfolding save new_session_manager write_file
reload-save s sm k h st sl v = ground (
  arith,
  lookup-load_files k (insert (file_name s.key) (holds (reencoded s)) sm.dir) []
      (insert-IsStore (file_name s.key) (holds (reencoded s)) sm.dir (reencoded-Named s v) h),
  lookup-load_files k sm.dir [] h,
  lookup-insert (file_name s.key) (file_name k) (holds (reencoded s)) sm.dir,
  str_eq_iff (file_name s.key) (file_name k),
  str_eq_iff s.key k,
  file_name_inj s.key k,
)

-- What came back once comes back unchanged.
valid_text_idem : (s : Str) → valid_text (valid_text s) ≡ valid_text s
unfolding valid_text
valid_text_idem s = ap of_runes (runes-of_runes (runes s) (runes-IsScalar s))
