-- ===== src/Base/Text.antt =====
-- Go strings as lists of bytes, with equality, prefixes and whole-text literals.
use Prim.Native.Nat.{ℕ, ◌+◌}
use Prim.Native.Char.{code}
use Prim.Native.String.{String}
use mathlib.Core.Path.{◌≡◌, refl}
use mathlib.Core.Logic.{◌↔◌, ◌≢◌}
use mathlib.Core.Bool.{Bool, true, false, ◌&&◌, ◌||◌}
use mathlib.Core.List.{List, [], ◌∷◌, ◌++◌}
use native.Mathlib.Omega.{arith}
use picoclawnim.Base.Tests.{◌==◌, leb, if◌then◌else◌}

-- A Go string: its bytes.
abbrev pub Str : Type 0
Str = List ℕ

-- The bytes of a literal (all literals here are ASCII).
abbrev pub str : String → Str
str String.[] = []
str (String.◌∷◌ c s) = code c ∷ str s

unfoldable pub str_eq : Str → Str → Bool
str_eq [] [] = true
str_eq [] (b ∷ t) = false
str_eq (a ∷ s) [] = false
str_eq (a ∷ s) (b ∷ t) = a == b && str_eq s t

pub str_eq_sound : (s t : Str) → str_eq s t ≡ true → s ≡ t
unfolding str_eq
str_eq_sound [] [] h = refl
str_eq_sound [] (b ∷ t) h = cc
str_eq_sound (a ∷ s) [] h = cc
str_eq_sound (a ∷ s) (b ∷ t) h = ground (arith, str_eq_sound s t)

pub str_eq_refl : (s : Str) → str_eq s s ≡ true
unfolding str_eq
str_eq_refl [] = refl
str_eq_refl (a ∷ s) = ground (arith, str_eq_refl s)

pub str_eq_iff : (s t : Str) → (str_eq s t ≡ true) ↔ (s ≡ t)
str_eq_iff s t = (str_eq_sound s t, λ e. rw e (str_eq_refl t))

pub str_eq_ne : (s t : Str) → s ≢ t → str_eq s t ≡ false
str_eq_ne s t h = ground (arith, str_eq_iff s t)

-- strings.HasPrefix
unfoldable pub has_prefix : Str → Str → Bool
has_prefix s [] = true
has_prefix [] (b ∷ t) = false
has_prefix (a ∷ s) (b ∷ t) = a == b && has_prefix s t

-- strings.Contains
unfoldable pub contains : Str → Str → Bool
unfolding has_prefix
contains [] sub = has_prefix [] sub
contains (a ∷ s) sub = has_prefix (a ∷ s) sub || contains s sub

pub has_prefix-append : (s t : Str) → has_prefix (s ++ t) s ≡ true
unfolding has_prefix
has_prefix-append [] t = refl
has_prefix-append (a ∷ s) t = ground (arith, has_prefix-append s t)

-- A text with a prefix is the prefix and a rest.
pub has_prefix_split : (s p : Str) → has_prefix s p ≡ true → (t : Str) × (s ≡ p ++ t)
unfolding has_prefix
has_prefix_split s [] h = (s, refl)
has_prefix_split [] (b ∷ p) h = cc
has_prefix_split (a ∷ s) (b ∷ p) h =
    let (t, e) = has_prefix_split s p (ground arith) in (t, ground arith)

-- strings.ToLower on ASCII.
unfoldable pub to_lower : Str → Str
to_lower [] = []
to_lower (c ∷ s) = (if leb 65 c && leb c 90 then c + 32 else c) ∷ to_lower s
