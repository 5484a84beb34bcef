-- ===== src/Channels/Telegram/Patterns.antt =====
-- The regular expressions of `markdownToTelegramHTML` (pkg/channels/telegram.go), each by what it
-- matches at the head of a text: how many bytes, and the text that it captures or leaves.
use picoclawnim.Base.{
  ℕ, zero, suc, ◌+◌, Bool, not, ◌&&◌, ◌||◌, Option, none, some, [], ◌∷◌, ◌++◌, Str, str, ◌==◌,
  if◌then◌else◌, leb, ltb, has_prefix, drop, take, length, any,
}
use picoclawnim.Base.Replace.{spaces, index}

abbrev pub is_word : ℕ → Bool
is_word c = leb 48 c && leb c 57 || leb 65 c && leb c 90 || leb 97 c && leb c 122 || c == 95

unfoldable pub words : Str → ℕ
words [] = 0
words (c ∷ s) = if is_word c then suc (words s) else 0

unfoldable pub break_length : Str → ℕ
break_length [] = 0
break_length (c ∷ s) = if c == b'\n' then 1 else 0

unfoldable pub block_body : ℕ → Str → Option ℕ → Option (ℕ × Str)
block_body start s none = none
block_body start s (some n) = some (start + n + 3, take n s)

-- "```[\w]*\n?([\s\S]*?)```"
unfoldable pub match_block : Str → Option (ℕ × Str)
unfolding words break_length block_body
match_block s =
    if has_prefix s (str "```")
    then (let a = 3 + words (drop 3 s) in
        let b = a + break_length (drop a s) in
        block_body b (drop b s) (index (str "```") (drop b s)))
    else none

-- The text before the first byte `c`, if there is one.
unfoldable pub before : ℕ → Str → Option Str
before c [] = none
before c (d ∷ s) =
    let rest = before c s in
    if d == c then some [] else elim rest [ none ↦ none | some t ↦ some (d ∷ t) ]

unfoldable pub span : Option Str → Option (ℕ × Str)
span none = none
span (some []) = none
span (some (c ∷ t)) = some (length t + 3, c ∷ t)

-- "`([^`]+)`" and `_([^_]+)_`, by their delimiter
unfoldable pub match_span : ℕ → Str → Option (ℕ × Str)
unfolding before span
match_span d [] = none
match_span d (c ∷ s) = if c == d then span (before d s) else none

-- The text before the first `d`, within the line.
unfoldable pub before_in_line : Str → Str → Option Str
before_in_line d [] = none
before_in_line d (c ∷ s) =
    let rest = before_in_line d s in
    if has_prefix (c ∷ s) d
    then some []
    else if c == b'\n'
    then none
    else elim rest [ none ↦ none | some t ↦ some (c ∷ t) ]

unfoldable pub wrapped : Str → Str → ℕ → Option Str → Option (ℕ × Str)
wrapped open_tag close_tag c none = none
wrapped open_tag close_tag c (some t) = some (length t + 5, open_tag ++ (c ∷ t ++ close_tag))

unfoldable pub wrapped_rest : Str → Str → Str → Str → Option (ℕ × Str)
unfolding before_in_line wrapped
wrapped_rest d open_tag close_tag [] = none
wrapped_rest d open_tag close_tag (c ∷ s) =
    if c == b'\n' then none else wrapped open_tag close_tag c (before_in_line d s)

-- `\*\*(.+?)\*\*` and its kin, by the two bytes that delimit, put into tags
unfoldable pub match_pair : Str → Str → Str → Str → Option (ℕ × Str)
unfolding wrapped_rest
match_pair d open_tag close_tag s =
    if has_prefix s d then wrapped_rest d open_tag close_tag (drop 2 s) else none

unfoldable pub italic : Option (ℕ × Str) → Option (ℕ × Str)
italic none = none
italic (some (n, t)) = some (n, str "<i>" ++ (t ++ str "</i>"))

unfoldable pub match_italic : Str → Option (ℕ × Str)
unfolding match_span italic
match_italic s = italic (match_span b'_' s)

unfoldable pub link_to : Str → Option Str → Option (ℕ × Str)
link_to label none = none
link_to label (some []) = none
link_to label (some (c ∷ t)) = some (
  length label + length t + 5,
  str "<a href=\"" ++ (c ∷ t ++ (str "\">" ++ (label ++ str "</a>"))),
)

unfoldable pub link_label : Str → Option Str → Option (ℕ × Str)
unfolding link_to before
link_label s none = none
link_label s (some []) = none
link_label s (some (c ∷ t)) =
    let rest = drop (length t + 2) s in
    if has_prefix rest (str "(") then link_to (c ∷ t) (before b')' (drop 1 rest)) else none

-- `\[([^\]]+)\]\(([^)]+)\)`
unfoldable pub match_link : Str → Option (ℕ × Str)
unfolding link_label before
match_link [] = none
match_link (c ∷ s) = if c == b'[' then link_label s (before b']' s) else none

abbrev has_break : Str → Bool
has_break s = any (λ c. c == b'\n') s

unfoldable pub hashes : Str → ℕ
hashes [] = 0
hashes (c ∷ s) = if c == b'#' then suc (hashes s) else 0

-- The last byte of the space, which `(.+)` takes if nothing else is left for it.
unfoldable pub last_space : Str → Str → Str
last_space whole [] = whole
last_space whole (c ∷ []) = whole
last_space whole (c ∷ d ∷ []) = if d == b'\n' then whole else d ∷ []
last_space whole (c ∷ d ∷ e ∷ s) = last_space whole (d ∷ e ∷ s)

unfoldable pub heading_rest : Str → Str → ℕ → Str
unfolding last_space
heading_rest whole s zero = whole
heading_rest whole s (suc n) = elim (drop (suc n) s) [
  | [] ↦ last_space whole s
  | c ∷ t ↦ if has_break (c ∷ t) then whole else c ∷ t
]

-- `^#{1,6}\s+(.+)$`, whose `^` and `$` are the ends of the text
unfoldable pub strip_heading : Str → Str
unfolding hashes heading_rest
strip_heading s =
    let n = hashes s in
    if ltb 0 n && leb n 6 then heading_rest s (drop n s) (spaces (drop n s)) else s

unfoldable pub strip_quote : Str → Str
strip_quote [] = []
strip_quote (c ∷ s) =
    let rest = drop (spaces s) s in if c == b'>' && not (has_break rest) then rest else c ∷ s

-- `^[-*]\s+`, replaced by a bullet (U+2022) and a space
unfoldable pub strip_bullet : Str → Str
strip_bullet [] = []
strip_bullet (c ∷ s) =
    if (c == b'-' || c == b'*') && ltb 0 (spaces s)
    then 226 ∷ 128 ∷ 162 ∷ 32 ∷ drop (spaces s) s
    else c ∷ s
