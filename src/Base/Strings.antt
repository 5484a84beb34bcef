-- ===== src/Base/Strings.antt =====
-- More of Go's strings package, on bytes: splitting, trimming, joining, replacing. Space is ASCII's.
use picoclawnim.Base.{
  ℕ, Bool, ◌&&◌, ◌||◌, ◌≡◌, refl, append_assoc, Option, none, some, List, [], ◌∷◌, ◌++◌, Str, ◌==◌,
  leb, arith, if◌then◌else◌,
}

unfoldable pub is_space : ℕ → Bool
is_space c = leb 9 c && leb c 13 || c == 32

-- strings.TrimLeftFunc, TrimRightFunc and TrimFunc
unfoldable pub trim_left : (ℕ → Bool) → Str → Str
trim_left p [] = []
trim_left p (c ∷ s) = if p c then trim_left p s else c ∷ s

unfoldable pub trimmed_end : (ℕ → Bool) → ℕ → Str → Str
trimmed_end p c [] = if p c then [] else c ∷ []
trimmed_end p c (d ∷ r) = c ∷ d ∷ r

unfoldable pub trim_right : (ℕ → Bool) → Str → Str
unfolding trimmed_end
trim_right p [] = []
trim_right p (c ∷ s) = trimmed_end p c (trim_right p s)

unfoldable pub trim : (ℕ → Bool) → Str → Str
trim p s = trim_right p (trim_left p s)

-- strings.TrimSpace
unfoldable pub trim_space : Str → Str
trim_space s = trim is_space s

-- The text before the first byte `c`, and the text after it if there is one.
unfoldable pub cut : ℕ → Str → Str × Option Str
cut c [] = ([], none)
cut c (d ∷ s) =
    let (before, after) = cut c s in if d == c then ([], some s) else (d ∷ before, after)

-- strings.Split by one byte; the first piece is on its own, since there is always one.
unfoldable pub split_from : ℕ → Str → Str × List Str
split_from c [] = ([], [])
split_from c (d ∷ s) =
    let (piece, rest) = split_from c s in if d == c then ([], piece ∷ rest) else (d ∷ piece, rest)

unfoldable pub split : ℕ → Str → List Str
split c s = let (piece, rest) = split_from c s in piece ∷ rest

-- strings.Join
unfoldable pub join_with : Str → List Str → Str
join_with sep [] = []
join_with sep (s ∷ []) = s
join_with sep (s ∷ t ∷ ts) = s ++ (sep ++ join_with sep (t ∷ ts))

-- strings.ReplaceAll of one byte
unfoldable pub replace_byte : ℕ → Str → Str → Str
replace_byte c t [] = []
replace_byte c t (d ∷ s) = if d == c then t ++ replace_byte c t s else d ∷ replace_byte c t s

-- Replacing goes piece by piece.
pub replace_byte-append :
    (c : ℕ) (t x y : Str) → replace_byte c t (x ++ y) ≡ replace_byte c t x ++ replace_byte c t y
unfolding replace_byte
replace_byte-append c t [] y = refl
replace_byte-append c t (d ∷ x) y =
    ground
      (arith, replace_byte-append c t x y, append_assoc t (replace_byte c t x) (replace_byte c t y))

-- The pieces of a text, joined again, are the text.
pub join_with-split : (c : ℕ) (s : Str) → join_with (c ∷ []) (split c s) ≡ s
unfolding split split_from join_with
join_with-split c [] = refl
join_with-split c (d ∷ s) = ground (arith, join_with-split c s)
