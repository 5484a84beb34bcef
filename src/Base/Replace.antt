-- ===== src/Base/Replace.antt =====
-- `ReplaceAllLiteralString` of a regular expression, which is given by its matcher: how many bytes
-- match at the head of a text.
use picoclawnim.Base.{
  ℕ, zero, suc, ◌+◌, Bool, Option, none, some, List, [], ◌∷◌, ◌++◌, Str, ◌==◌, ◌||◌, if◌then◌else◌,
  has_prefix, drop, length,
}

-- After a match the replacement stands and the rest of the match is skipped; a match of no byte is
-- none. `skip` bytes belong to the last match.
unfoldable pub replace_step : Option ℕ → ℕ → Str → (ℕ → Str) → Str
replace_step (some (suc n)) c t rest = t ++ rest n
replace_step (some zero) c t rest = c ∷ rest 0
replace_step none c t rest = c ∷ rest 0

unfoldable pub replace_from : (Str → Option ℕ) → Str → ℕ → Str → Str
unfolding replace_step
replace_from m t skip [] = []
replace_from m t (suc n) (c ∷ s) = replace_from m t n s
replace_from m t zero (c ∷ s) = replace_step (m (c ∷ s)) c t (λ n. replace_from m t n s)

unfoldable pub replace_matches : (Str → Option ℕ) → Str → Str → Str
replace_matches m t s = replace_from m t 0 s

-- Where a text begins in another, counted from its head.
unfoldable pub index : Str → Str → Option ℕ
index t [] = none
index t (c ∷ s) =
    let rest = index t s in
    if has_prefix (c ∷ s) t then some 0 else elim rest [ none ↦ none | some n ↦ some (suc n) ]

upto_end : ℕ → Option ℕ → Option ℕ
upto_end k none = none
upto_end k (some n) = some (n + k)

-- `open[\s\S]*?close`, up to the first `close` after `open`.
unfoldable pub match_region : Str → Str → Str → Option ℕ
unfolding upto_end
match_region start stop s =
    if has_prefix s start
    then upto_end (length start + length stop) (index stop (drop (length start) s))
    else none

-- `\s` of RE2.
unfoldable pub is_re_space : ℕ → Bool
is_re_space c = c == 9 || c == 10 || c == 12 || c == 13 || c == 32

unfoldable pub spaces : Str → ℕ
unfolding is_re_space
spaces [] = 0
spaces (c ∷ s) = if is_re_space c then suc (spaces s) else 0

-- `\s+`
unfoldable pub match_spaces : Str → Option ℕ
unfolding spaces
match_spaces s = if spaces s == 0 then none else some (spaces s)

-- The same with a replacement that depends on the match.
unfoldable pub rewrite_step : Option (ℕ × Str) → ℕ → (ℕ → Str) → Str
rewrite_step (some (suc n, t)) c rest = t ++ rest n
rewrite_step (some (zero, t)) c rest = c ∷ rest 0
rewrite_step none c rest = c ∷ rest 0

unfoldable pub rewrite_from : (Str → Option (ℕ × Str)) → ℕ → Str → Str
unfolding rewrite_step
rewrite_from m skip [] = []
rewrite_from m (suc n) (c ∷ s) = rewrite_from m n s
rewrite_from m zero (c ∷ s) = rewrite_step (m (c ∷ s)) c (λ n. rewrite_from m n s)

unfoldable pub rewrite_matches : (Str → Option (ℕ × Str)) → Str → Str
rewrite_matches m s = rewrite_from m 0 s

-- What is captured in each match, as `FindAllStringSubmatch` gives it.
unfoldable pub find_step : Option (ℕ × Str) → (ℕ → List Str) → List Str
find_step (some (suc n, t)) rest = t ∷ rest n
find_step (some (zero, t)) rest = rest 0
find_step none rest = rest 0

unfoldable pub find_from : (Str → Option (ℕ × Str)) → ℕ → Str → List Str
unfolding find_step
find_from m skip [] = []
find_from m (suc n) (c ∷ s) = find_from m n s
find_from m zero (c ∷ s) = find_step (m (c ∷ s)) (λ n. find_from m n s)

unfoldable pub find_all : (Str → Option (ℕ × Str)) → Str → List Str
find_all m s = find_from m 0 s

-- strings.ReplaceAll of a text that is not empty
unfoldable pub match_text : Str → Str → Str → Option (ℕ × Str)
match_text old new s = if has_prefix s old then some (length old, new) else none

unfoldable pub replace_text : Str → Str → Str → Str
unfolding match_text
replace_text old new s = rewrite_matches (match_text old new) s
