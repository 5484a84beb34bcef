-- ===== src/Skills/Tests.antt =====
-- The theorems on skills (pkg/skills/loader.go) for one skill in the workspace, and runs of the code.
use picoclawnim.Base.{
  ◌≡◌, ◌≢◌, ◌↔◌, refl, true, false, Bool, none, some, Option, [], ◌∷◌, ◌++◌, arith, Str, str,
  str_eq, if◌then◌else◌, drop, has_prefix, lookup, ◌&&◌, ◌||◌, false, not, any,
}
use picoclawnim.Skills.Text.{
  dashes, strip_frontmatter, parse_simple_yaml, escape_xml, extract_frontmatter,
}
use picoclawnim.Skills.Front.{Matches, front_matter, strip_frontmatter_iff}
use picoclawnim.Skills.Escape.{escape_bytes, escape_xml-escape_bytes}
use picoclawnim.Skills.Loader.{Fs, SkillsLoader}

yaml_read :
    lookup (str "description") (parse_simple_yaml (str "name: x\n# no\ndescription: \"a b\""))
    ≡ some (str "a b")
unfolding parse_simple_yaml lookup picoclawnim.Base.Strings.split
    picoclawnim.Base.Strings.split_from str_eq picoclawnim.Base.Strings.trim_space
    picoclawnim.Base.Strings.trim picoclawnim.Base.Strings.trim_right
    picoclawnim.Base.Strings.trim_left picoclawnim.Base.Strings.is_space has_prefix
    picoclawnim.Base.Strings.cut picoclawnim.Base.insert
yaml_read = refl

front_read : extract_frontmatter (str "---\na\nb\n---\nbody") ≡ str "a\nb"
unfolding extract_frontmatter has_prefix picoclawnim.Skills.Text.before_last
front_read = refl

-- A front matter of two lines stays in the text.
two_lines_stay :
    strip_frontmatter (str "---\na: 1\nb: 2\n---\nbody") ≡ str "---\na: 1\nb: 2\n---\nbody"
unfolding strip_frontmatter has_prefix picoclawnim.Base.Strings.cut
two_lines_stay = refl

apart : str "---\na: 1\n---\nbody" ≢ str "body"
apart e = ground arith

strip_frontmatter_iff_example :
    (strip_frontmatter (str "---\na: 1\n---\nbody") ≡ str "body")
    ↔ ((p : Str) × Matches front_matter p × (str "---\na: 1\n---\nbody" ≡ p ++ str "body"))
strip_frontmatter_iff_example =
    strip_frontmatter_iff (str "---\na: 1\n---\nbody") (str "body") apart

-- The two names under which `filepath.Join` gives the path of the one skill.
abbrev skill_path : Str → Str → Str
skill_path root name =
    if str_eq root (str "ws") && (str_eq name (str "notes") || str_eq name (str "./notes"))
    then str "ws/notes/SKILL.md"
    else []

abbrev has_file : Str → Bool
has_file p = str_eq p (str "ws/notes/SKILL.md")

abbrev disk : Fs
disk = record {
  list_dir = λ root. some ((str "notes", true) ∷ []);
  exists = has_file;
  read = λ p. if has_file p then some (str "text") else none;
  skill_file = skill_path;
  parent_name = λ p. p;
  read_json = λ s. none;
}

abbrev loader : SkillsLoader
loader = record { workspace_skills = str "ws"; global_skills = []; builtin_skills = [] }

escaped_same : escape_xml (str "a<b") ≡ escape_xml (str "a<b")
escaped_same = refl

escape_xml-escape_bytes_example : escape_xml (str "a<b") ≡ escape_bytes (str "a<b")
escape_xml-escape_bytes_example = escape_xml-escape_bytes (str "a<b")
