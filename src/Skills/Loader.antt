-- ===== src/Skills/Loader.antt =====
-- `SkillsLoader` of pkg/skills/loader.go: what is listed, what is loaded, and the two texts for the
-- prompt. The file system is an argument.
use picoclawnim.Base.{
  Bool, not, ◌&&◌, Option, none, some, List, [], ◌∷◌, ◌++◌, Str, str, str_eq, any, if◌then◌else◌,
  lookup,
}
use picoclawnim.Base.Strings.{join_with}
use picoclawnim.Skills.Text.{extract_frontmatter, parse_simple_yaml, strip_frontmatter, escape_xml}

-- `os.ReadDir` (names, with `IsDir`), `os.Stat` and `os.ReadFile` without the texts of errors, the
-- path `filepath.Join(dir, name, "SKILL.md")`, the name of the directory of a path, and
-- `json.Unmarshal` into a name and a description.
pub record Fs : Type 0 where
  pub list_dir : Str → Option (List (Str × Bool))
  pub exists : Str → Bool
  pub read : Str → Option Str
  pub skill_file : Str → Str → Str
  pub parent_name : Str → Str
  pub read_json : Str → Option (Str × Str)

pub record SkillMetadata : Type 0 where
  pub name : Str
  pub description : Str

pub record SkillInfo : Type 0 where
  pub name : Str
  pub path : Str
  pub source : Str
  pub description : Str

pub record SkillsLoader : Type 0 where
  pub workspace_skills : Str
  pub global_skills : Str
  pub builtin_skills : Str

unfoldable pub or_empty : Option Str → Str
or_empty none = []
or_empty (some s) = s

module _ (fs : Fs) where
  unfoldable pub metadata_of : Str → Option (Str × Str) → SkillMetadata
  unfolding or_empty
  metadata_of front (some (name, description)) = record { name = name; description = description }
  metadata_of front none =
      let m = parse_simple_yaml front in
      record {
        name = or_empty (lookup (str "name") m);
        description = or_empty (lookup (str "description") m);
      }

  unfoldable pub content_metadata : Str → Option Str → Option SkillMetadata
  unfolding metadata_of
  content_metadata path none = none
  content_metadata path (some content) =
      let front = extract_frontmatter content in
      if str_eq front []
      then some (record { name = fs.parent_name path; description = [] })
      else some (metadata_of front (fs.read_json front))

  -- `getSkillMetadata`
  unfoldable pub get_skill_metadata : Str → Option SkillMetadata
  unfolding content_metadata
  get_skill_metadata path = content_metadata path (fs.read path)

  unfoldable pub described : Option SkillMetadata → Str
  described none = []
  described (some m) = m.description

  unfoldable pub info_of : Str → Str → Str → SkillInfo
  unfolding described
  info_of source root name =
      let path = fs.skill_file root name in
      record {
        name = name;
        path = path;
        source = source;
        description = described (get_skill_metadata path);
      }

  -- Whether a skill of that name was found in one of the sources.
  unfoldable pub has_skill : Str → List Str → List SkillInfo → Bool
  has_skill name sources skills =
      any (λ s. str_eq s.name name && any (str_eq s.source) sources) skills

  -- One entry of a directory; `over` are the sources that go before.
  unfoldable pub add_entry : Str → List Str → Str → Str → Bool → List SkillInfo → List SkillInfo
  unfolding info_of has_skill
  add_entry source over root name is_dir skills =
      if is_dir && fs.exists (fs.skill_file root name) && not (has_skill name over skills)
      then skills ++ info_of source root name ∷ []
      else skills

  unfoldable pub add_entries :
      Str → List Str → Str → List (Str × Bool) → List SkillInfo → List SkillInfo
  unfolding add_entry
  add_entries source over root [] skills = skills
  add_entries source over root ((name, is_dir) ∷ es) skills =
      add_entries source over root es (add_entry source over root name is_dir skills)

  unfoldable pub add_listed :
      Str → List Str → Str → Option (List (Str × Bool)) → List SkillInfo → List SkillInfo
  unfolding add_entries
  add_listed source over root none skills = skills
  add_listed source over root (some es) skills = add_entries source over root es skills

  unfoldable pub add_root : Str → List Str → Str → List SkillInfo → List SkillInfo
  unfolding add_listed
  add_root source over root skills =
      if str_eq root [] then skills else add_listed source over root (fs.list_dir root) skills

  unfoldable pub list_skills : SkillsLoader → List SkillInfo
  unfolding add_root
  list_skills sl =
      add_root (str "builtin") (str "global" ∷ str "workspace" ∷ []) sl.builtin_skills (
        add_root (str "global") (str "workspace" ∷ []) sl.global_skills
          (add_root (str "workspace") [] sl.workspace_skills []))

  unfoldable pub read_from : Str → Str → Option Str
  read_from root name = if str_eq root [] then none else fs.read (fs.skill_file root name)

  unfoldable pub stripped_or : Option Str → Option Str → Option Str
  stripped_or (some content) rest = some (strip_frontmatter content)
  stripped_or none rest = rest

  unfoldable pub load_skill : SkillsLoader → Str → Option Str
  unfolding read_from stripped_or
  load_skill sl name = stripped_or (read_from sl.workspace_skills name) (
      stripped_or (read_from sl.global_skills name)
        (stripped_or (read_from sl.builtin_skills name) none))

  unfoldable pub context_part : Str → Option Str → List Str
  context_part name none = []
  context_part name (some content) = (str "### Skill: " ++ (name ++ (str "\n\n" ++ content))) ∷ []

  unfoldable pub context_parts : SkillsLoader → List Str → List Str
  unfolding context_part
  context_parts sl [] = []
  context_parts sl (name ∷ names) = context_part name (load_skill sl name) ++ context_parts sl names

  unfoldable pub load_skills_for_context : SkillsLoader → List Str → Str
  unfolding context_parts
  load_skills_for_context sl names = join_with (str "\n\n---\n\n") (context_parts sl names)

  unfoldable pub summary_lines : List SkillInfo → List Str
  summary_lines [] = str "</skills>" ∷ []
  summary_lines (s ∷ ss) =
      str "  <skill>"
      ∷ (str "    <name>" ++ (escape_xml s.name ++ str "</name>"))
      ∷ (str "    <description>" ++ (escape_xml s.description ++ str "</description>"))
      ∷ (str "    <location>" ++ (escape_xml s.path ++ str "</location>"))
      ∷ (str "    <source>" ++ (s.source ++ str "</source>"))
      ∷ str "  </skill>"
      ∷ summary_lines ss

  unfoldable pub summary_of : List SkillInfo → Str
  unfolding summary_lines
  summary_of [] = []
  summary_of (s ∷ ss) = join_with (str "\n") (str "<skills>" ∷ summary_lines (s ∷ ss))

  unfoldable pub build_skills_summary : SkillsLoader → Str
  unfolding summary_of
  build_skills_summary sl = summary_of (list_skills sl)
