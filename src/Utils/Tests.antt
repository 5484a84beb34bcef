-- ===== src/Utils/Tests.antt =====
-- The theorems on texts cut to a number of runes (pkg/utils/string.go), and runs of the code.
use picoclawnim.Base.{◌≡◌, ◌≤◌, refl, [], ◌∷◌, str, length, All, arith}
use picoclawnim.Utils.Runes.{IsScalar, runes, of_runes, runes-of_runes}
use picoclawnim.Base.{true, false, contains}
use picoclawnim.Utils.Media.{has_byte, is_audio_file, sanitize_filename, sanitize_filename_safe}
use picoclawnim.Utils.Truncate.{truncate, length-truncate}

-- "é€" and a byte that begins nothing.
decoded : runes (195 ∷ 169 ∷ 226 ∷ 130 ∷ 172 ∷ 255 ∷ []) ≡ 233 ∷ 8364 ∷ 65533 ∷ []
unfolding runes picoclawnim.Utils.Runes.runes_from picoclawnim.Utils.Runes.two
    picoclawnim.Utils.Runes.three
decoded = refl

shortened : truncate (str "a long message") 9 ≡ str "a long..."
unfolding truncate runes picoclawnim.Utils.Runes.runes_from of_runes
shortened = refl

scalars : All IsScalar (233 ∷ 8364 ∷ 128512 ∷ [])
scalars = ground arith

length-truncate_example : length (runes (truncate (str "a long message") 9)) ≤ 9
length-truncate_example = length-truncate (str "a long message") 9

sanitize_filename_safe_example :
    (has_byte b'/' (sanitize_filename (λ s. s) (str "../a\\..b")) ≡ false)
    × (has_byte b'\\' (sanitize_filename (λ s. s) (str "../a\\..b")) ≡ false)
    × (contains (sanitize_filename (λ s. s) (str "../a\\..b")) (str "..") ≡ false)
sanitize_filename_safe_example = sanitize_filename_safe (λ s. s) (str "../a\\..b")

audio_known : is_audio_file (str "Note.MP3") [] ≡ true
unfolding is_audio_file picoclawnim.Base.to_lower picoclawnim.Base.str_eq
audio_known = refl
