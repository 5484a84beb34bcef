-- ===== src/Utils/Runes.antt =====
-- The conversions `[]rune(s)` and `string(runes)` of Go, which pkg/utils/string.go rests on: UTF-8,
-- with U+FFFD for each byte that begins no valid sequence.
use picoclawnim.Base.{
  ℕ, zero, suc, ◌+◌, ◌-◌, ◌*◌, ◌/◌, ◌%◌, ◌≤◌, ◌<◌, ◌≡◌, refl, sym, ap, append_assoc, ◌∙◌, ◌⊎◌, inl,
  inr, Bool, ◌&&◌, ◌||◌, List, [], ◌∷◌, ◌++◌, All, Str, arith, if◌then◌else◌, ltb, leb,
}

abbrev pub rune_error : ℕ
rune_error = 65533

-- The code points that are neither surrogates nor beyond the last.
abbrev pub IsScalar : ℕ → Type 0
IsScalar r = (r < 55296) ⊎ ((57344 ≤ r) × (r < 1114112))

abbrev between : ℕ → ℕ → ℕ → Bool
between lo hi b = leb lo b && leb b hi

abbrev continues : ℕ → Bool
continues b = between 128 191 b

-- The rune at the head of a text, and how many bytes after the first belong to it.
abbrev bad : ℕ × ℕ
bad = (rune_error, 0)

unfoldable pub two : ℕ → Str → ℕ × ℕ
two a [] = bad
two a (b ∷ s) = if continues b then ((a - 192) * 64 + (b - 128), 1) else bad

unfoldable pub three : ℕ → Str → ℕ × ℕ
three a [] = bad
three a (b ∷ []) = bad
three a (b ∷ c ∷ s) =
    if between (if leb a 224 then 160 else 128) (if leb a 237 && leb 237 a then 159 else 191) b
      && continues c
    then ((a - 224) * 4096 + (b - 128) * 64 + (c - 128), 2)
    else bad

unfoldable pub four : ℕ → Str → ℕ × ℕ
four a [] = bad
four a (b ∷ []) = bad
four a (b ∷ c ∷ []) = bad
four a (b ∷ c ∷ d ∷ s) =
    if between (if leb a 240 then 144 else 128) (if leb 244 a then 143 else 191) b
      && continues c
      && continues d
    then ((a - 240) * 262144 + (b - 128) * 4096 + (c - 128) * 64 + (d - 128), 3)
    else bad

unfoldable pub rune_at : ℕ → Str → ℕ × ℕ
rune_at a s =
    if ltb a 128
    then (a, 0)
    else if between 194 223 a
    then two a s
    else if between 224 239 a
    then three a s
    else if between 240 244 a
    then four a s
    else bad

-- `skip` bytes belong to the rune that was read last.
unfoldable pub runes_from : ℕ → Str → List ℕ
unfolding rune_at
runes_from skip [] = []
runes_from (suc n) (a ∷ s) = runes_from n s
runes_from zero (a ∷ s) = let (r, w) = rune_at a s in r ∷ runes_from w s

-- `[]rune(s)`
unfoldable pub runes : Str → List ℕ
runes s = runes_from 0 s

unfoldable pub encode_rune : ℕ → Str
encode_rune r =
    if ltb r 128
    then r ∷ []
    else if ltb r 2048
    then (192 + r / 64) ∷ (128 + r % 64) ∷ []
    else if between 55296 57343 r || ltb 1114111 r
    then 239 ∷ 191 ∷ 189 ∷ []
    else if ltb r 65536
    then (224 + r / 4096) ∷ (128 + r / 64 % 64) ∷ (128 + r % 64) ∷ []
    else (240 + r / 262144) ∷ (128 + r / 4096 % 64) ∷ (128 + r / 64 % 64) ∷ (128 + r % 64) ∷ []

-- `string(runes)`
unfoldable pub of_runes : List ℕ → Str
unfolding encode_rune
of_runes [] = []
of_runes (r ∷ rs) = encode_rune r ++ of_runes rs

two-IsScalar : (a : ℕ) (s : Str) → a < 224 → IsScalar ((two a s).0)
unfolding two
two-IsScalar a [] h = ground arith
two-IsScalar a (b ∷ s) h = ground arith

three-IsScalar : (a : ℕ) (s : Str) → 224 ≤ a → a < 240 → IsScalar ((three a s).0)
unfolding three
three-IsScalar a [] g h = ground arith
three-IsScalar a (b ∷ []) g h = ground arith
three-IsScalar a (b ∷ c ∷ s) g h = ground arith

four-IsScalar : (a : ℕ) (s : Str) → 240 ≤ a → a < 245 → IsScalar ((four a s).0)
unfolding four
four-IsScalar a [] g h = ground arith
four-IsScalar a (b ∷ []) g h = ground arith
four-IsScalar a (b ∷ c ∷ []) g h = ground arith
four-IsScalar a (b ∷ c ∷ d ∷ s) g h = ground arith

rune_at-IsScalar : (a : ℕ) (s : Str) → IsScalar ((rune_at a s).0)
unfolding rune_at
rune_at-IsScalar a s = ground (arith, two-IsScalar a s, three-IsScalar a s, four-IsScalar a s)

runes_from-IsScalar : (n : ℕ) (s : Str) → All IsScalar (runes_from n s)
unfolding runes_from
runes_from-IsScalar n [] = tt
runes_from-IsScalar (suc n) (a ∷ s) = runes_from-IsScalar n s
runes_from-IsScalar zero (a ∷ s) = (rune_at-IsScalar a s, runes_from-IsScalar ((rune_at a s).1) s)

-- Every rune of a text is a code point that can be encoded, whatever its bytes.
pub runes-IsScalar : (s : Str) → All IsScalar (runes s)
unfolding runes
runes-IsScalar s = runes_from-IsScalar 0 s

div_mod_64 : (r : ℕ) → (r / 64) * 64 + r % 64 ≡ r
div_mod_64 r = omega arith

decode_two :
    (r : ℕ) (s : Str) → 128 ≤ r → r < 2048 → rune_at (192 + r / 64) ((128 + r % 64) ∷ s) ≡ (r, 1)
unfolding rune_at two
decode_two r s g h = ground (arith, div_mod_64 r)

decode_three :
    (r : ℕ) (s : Str)
    → 2048 ≤ r
    → r < 65536
    → IsScalar r
    → rune_at (224 + r / 4096) ((128 + r / 64 % 64) ∷ (128 + r % 64) ∷ s) ≡ (r, 2)
unfolding rune_at three
decode_three r s g h k = ground arith

decode_four :
    (r : ℕ) (s : Str)
    → 65536 ≤ r
    → r < 1114112
    → rune_at (240 + r / 262144) ((128 + r / 4096 % 64) ∷ (128 + r / 64 % 64) ∷ (128 + r % 64) ∷ s)
      ≡ (r, 3)
unfolding rune_at four
decode_four r s g h = ground arith

decode_one : (r : ℕ) (s : Str) → r < 128 → rune_at r s ≡ (r, 0)
unfolding rune_at
decode_one r s h = ground arith

abbrev Size : ℕ → Type 0
Size r =
    (r < 128)
    ⊎ ((128 ≤ r) × (r < 2048))
    ⊎ ((2048 ≤ r) × (r < 65536))
    ⊎ ((65536 ≤ r) × (r < 1114112))

Size-cases : (r : ℕ) → IsScalar r → Size r
Size-cases r h = ground arith

decode_step :
    (r : ℕ) (s : Str) → IsScalar r → runes_from 0 (encode_rune r ++ s) ≡ r ∷ runes_from 0 s
unfolding encode_rune runes_from
decode_step r s h = elim (Size-cases r h) [
  | inl a ↦ ground (arith, decode_one r s a)
  | inr (inl (a, b)) ↦ ground (arith, decode_two r s a b)
  | inr (inr (inl (a, b))) ↦ ground (arith, decode_three r s a b h)
  | inr (inr (inr (a, b))) ↦ ground (arith, decode_four r s a b)
]

-- The code points that were encoded are read back, one by one, from what stands before any text.
pub runes-of_runes : (rs : List ℕ) → All IsScalar rs → runes (of_runes rs) ≡ rs
unfolding runes of_runes runes_from
runes-of_runes [] h = refl
runes-of_runes (r ∷ rs) h = decode_step r (of_runes rs) h.0 ∙ ap (◌∷◌ r) (runes-of_runes rs h.1)

pub of_runes-append : (rs ss : List ℕ) → of_runes (rs ++ ss) ≡ of_runes rs ++ of_runes ss
unfolding of_runes
of_runes-append [] ss = refl
of_runes-append (r ∷ rs) ss =
    ap (◌++◌ (encode_rune r)) (of_runes-append rs ss)
    ∙ sym (append_assoc (encode_rune r) (of_runes rs) (of_runes ss))
