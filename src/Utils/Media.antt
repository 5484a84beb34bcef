-- ===== src/Utils/Media.antt =====
-- `IsAudioFile` and `SanitizeFilename` of pkg/utils/media.go; `base` is `filepath.Base`.
use picoclawnim.Base.{
  ℕ, ◌≡◌, refl, Bool, false, ◌||◌, [], ◌∷◌, arith, Str, str, str_eq, ◌==◌, any, has_prefix,
  contains, to_lower,
}
use picoclawnim.Base.Strings.{replace_byte}
use picoclawnim.Base.Replace.{replace_text, match_text, rewrite_from, rewrite_matches, rewrite_step}

-- strings.HasSuffix
unfoldable pub has_suffix : Str → Str → Bool
has_suffix [] t = str_eq [] t
has_suffix (c ∷ s) t = str_eq (c ∷ s) t || has_suffix s t

unfoldable pub is_audio_file : Str → Str → Bool
unfolding has_suffix
is_audio_file filename content_type =
    any (λ ext. has_suffix (to_lower filename) ext)
      (str ".mp3"
        ∷ str ".wav"
        ∷ str ".ogg"
        ∷ str ".m4a"
        ∷ str ".flac"
        ∷ str ".aac"
        ∷ str ".wma"
        ∷ [])
    || any (λ t. has_prefix (to_lower content_type) t)
        (str "audio/" ∷ str "application/ogg" ∷ str "application/x-ogg" ∷ [])

unfoldable pub sanitize_filename : (Str → Str) → Str → Str
sanitize_filename base filename =
    replace_byte b'\\' (str "_")
      (replace_byte b'/' (str "_") (replace_text (str "..") [] (base filename)))

abbrev pub has_byte : ℕ → Str → Bool
has_byte b s = any (λ c. c == b) s

contains-replace_dots :
    (s : Str) → contains (rewrite_from (match_text (str "..") []) 0 s) (str "..") ≡ false
unfolding rewrite_from rewrite_step match_text contains has_prefix
contains-replace_dots [] = refl
contains-replace_dots (c ∷ []) = ground arith
contains-replace_dots (c ∷ d ∷ s) =
    ground (arith, contains-replace_dots s, contains-replace_dots (d ∷ s))

contains-replace_byte :
    (b : ℕ) (s : Str)
    → contains s (str "..") ≡ false
    → contains (replace_byte b (str "_") s) (str "..") ≡ false
unfolding contains has_prefix replace_byte
contains-replace_byte b [] h = h
contains-replace_byte b (c ∷ []) h = ground (arith, h)
contains-replace_byte b (c ∷ d ∷ s) h = ground (arith, h, contains-replace_byte b (d ∷ s))

has_byte-replace_byte :
    (b : ℕ) (s : Str) → (b == b'_') ≡ false → has_byte b (replace_byte b (str "_") s) ≡ false
unfolding replace_byte
has_byte-replace_byte b [] h = refl
has_byte-replace_byte b (c ∷ s) h = ground (arith, h, has_byte-replace_byte b s h)

has_byte-replace_other :
    (a b : ℕ) (s : Str)
    → (a == b'_') ≡ false
    → has_byte a s ≡ false
    → has_byte a (replace_byte b (str "_") s) ≡ false
unfolding replace_byte
has_byte-replace_other a b [] h g = refl
has_byte-replace_other a b (c ∷ s) h g = ground (arith, h, g, has_byte-replace_other a b s h)

-- A sanitized name leads out of no directory: it has no slash, no backslash and no two dots in a
-- row, whatever the name was.
pub sanitize_filename_safe :
    (base : Str → Str) (name : Str)
    → (has_byte b'/' (sanitize_filename base name) ≡ false)
      × (has_byte b'\\' (sanitize_filename base name) ≡ false)
      × (contains (sanitize_filename base name) (str "..") ≡ false)
unfolding sanitize_filename replace_text rewrite_matches
sanitize_filename_safe base name =
    let bare = rewrite_from (match_text (str "..") []) 0 (base name) in
    (
      has_byte-replace_other b'/' b'\\' (replace_byte b'/' (str "_") bare) refl
          (has_byte-replace_byte b'/' bare refl),
      has_byte-replace_byte b'\\' (replace_byte b'/' (str "_") bare) refl,
      contains-replace_byte b'\\' (replace_byte b'/' (str "_") bare)
          (contains-replace_byte b'/' bare (contains-replace_dots (base name))),
    )
