-- ===== src/Skills/Text.antt =====
-- The text of a SKILL.md (pkg/skills/loader.go): its front matter, the lines of that, and XML.
use picoclawnim.Base.{
  ℕ, Bool, ◌||◌, Option, none, some, List, [], ◌∷◌, Str, str, str_eq, ◌==◌, if◌then◌else◌,
  has_prefix, drop, Map, insert,
}
use picoclawnim.Base.Strings.{trim, trim_space, cut, split, replace_byte}

abbrev pub dashes : Str
dashes = str "---\n"

abbrev pub closing : Str
closing = str "\n---"

-- What stands before the last place where `t` occurs.
unfoldable pub before_last : Str → Str → Option Str
before_last t [] = none
before_last t (c ∷ s) = elim (before_last t s) [
  | some b ↦ some (c ∷ b)
  | none ↦ if has_prefix (c ∷ s) t then some [] else none
]

or_nothing : Option Str → Str
or_nothing none = []
or_nothing (some s) = s

-- `extractFrontmatter`: `(?s)^---\n(.*)\n---`, whose star takes as much as it can.
unfoldable pub extract_frontmatter : Str → Str
unfolding or_nothing
extract_frontmatter content =
    if has_prefix content dashes then or_nothing (before_last closing (drop 4 content)) else []

-- What follows one line and the closing dashes.
unfoldable pub after_line : Option Str → Option Str
after_line none = none
after_line (some rest) = if has_prefix rest dashes then some (drop 4 rest) else none

unfoldable pub keep_or : Str → Option Str → Str
keep_or content none = content
keep_or content (some body) = body

-- `stripFrontmatter`: `^---\n.*?\n---\n`, where the dot stands for no line break.
unfoldable pub strip_frontmatter : Str → Str
unfolding after_line keep_or
strip_frontmatter content =
    if has_prefix content dashes
    then keep_or content (after_line (cut b'\n' (drop 4 content)).1)
    else content

abbrev pub is_quote : ℕ → Bool
is_quote c = c == 34 || c == 39

unfoldable pub entry_of : Str → Option Str → Map Str → Map Str
entry_of key none m = m
entry_of key (some value) m = insert (trim_space key) (trim is_quote (trim_space value)) m

-- One line of the loop of `parseSimpleYAML`.
unfoldable pub add_line : Str → Map Str → Map Str
unfolding entry_of
add_line raw m =
    let line = trim_space raw in
    if str_eq line [] || has_prefix line (str "#")
    then m
    else let (key, value) = cut b':' line in entry_of key value m

unfoldable pub add_lines : List Str → Map Str → Map Str
unfolding add_line
add_lines [] m = m
add_lines (l ∷ ls) m = add_lines ls (add_line l m)

unfoldable pub parse_simple_yaml : Str → Map Str
unfolding add_lines
parse_simple_yaml content = add_lines (split b'\n' content) []

unfoldable pub escape_xml : Str → Str
escape_xml s =
    replace_byte b'>' (str "&gt;")
      (replace_byte b'<' (str "&lt;") (replace_byte b'&' (str "&amp;") s))
