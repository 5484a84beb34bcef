-- ===== src/Tools/Web/Text.antt =====
-- `extractText` of pkg/tools/web.go.
use picoclawnim.Base.{
  ℕ, zero, suc, ◌+◌, not, Option, none, some, List, [], ◌∷◌, map, Str, str, str_eq, ◌==◌,
  if◌then◌else◌, keep,
}
use picoclawnim.Base.Strings.{trim_space, split, join_with}
use picoclawnim.Base.Replace.{replace_matches, match_region, match_spaces}

-- The bytes up to `>`.
unfoldable pub until_angle : Str → Option ℕ
until_angle [] = none
until_angle (c ∷ s) =
    let rest = until_angle s in
    if c == b'>' then some 0 else elim rest [ none ↦ none | some n ↦ some (suc n) ]

tag_length : Option ℕ → Option ℕ
tag_length none = none
tag_length (some zero) = none
tag_length (some (suc n)) = some (suc n + 2)

-- `<[^>]+>`
unfoldable pub match_tag : Str → Option ℕ
unfolding until_angle tag_length
match_tag [] = none
match_tag (c ∷ s) = if c == b'<' then tag_length (until_angle s) else none

-- The text without scripts, styles and tags, and with its space collapsed.
unfoldable pub collapsed : Str → Str
unfolding match_tag
collapsed html =
    let a = replace_matches (match_region (str "<script") (str "</script>")) [] html in
    let b = replace_matches (match_region (str "<style") (str "</style>")) [] a in
    let c = trim_space (replace_matches match_tag [] b) in replace_matches match_spaces (str " ") c

unfoldable pub clean_lines : List Str → List Str
clean_lines lines = keep (λ l. not (str_eq l [])) (map trim_space lines)

unfoldable pub extract_text : Str → Str
unfolding collapsed clean_lines
extract_text html = join_with (str "\n") (clean_lines (split b'\n' (collapsed html)))
