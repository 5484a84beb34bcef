-- ===== src/Skills/Agreement.antt =====
-- `ListSkills` and `LoadSkill` of pkg/skills/loader.go agree on where a skill comes from.
use picoclawnim.Base.{◌≡◌, Bool, true, some, List, [], ◌∷◌, Str, str}
use picoclawnim.Skills.Text.{strip_frontmatter}
use picoclawnim.Skills.Loader.{Fs, SkillInfo, SkillsLoader, has_skill, add_root, load_skill}
use picoclawnim.Skills.Listing.{IsSteady, is_plain}

module _ (fs : Fs) where
  -- Each name with a SKILL.md in a root that goes before has been found.
  abbrev Covers : (Str → Bool) → List Str → List SkillInfo → Type 0
  Covers higher over xs =
      (n : Str) → is_plain n ≡ true → higher n ≡ true → has_skill fs n over xs ≡ true

  -- The text that the listed path holds is what loading by the name gives.
  abbrev pub LoadsItself : SkillsLoader → SkillInfo → Type 0
  LoadsItself sl s =
      (content : Str) × (fs.read s.path ≡ some content)
      × (load_skill fs sl s.name ≡ some (strip_frontmatter content))

  module _ (sl : SkillsLoader) (steady : IsSteady fs) where
    abbrev shown_first : List SkillInfo
    shown_first = add_root fs (str "workspace") [] sl.workspace_skills []

    abbrev shown_second : List SkillInfo
    shown_second = add_root fs (str "global") (str "workspace" ∷ []) sl.global_skills shown_first
