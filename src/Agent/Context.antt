-- ===== src/Agent/Context.antt =====
-- `ContextBuilder` of pkg/agent/context.go but for `BuildMessages`, which stands in `Loop`: the
-- system prompt and the lists of messages and skills.
use picoclawnim.Base.{
  ℕ, Option, none, some, List, [], ◌∷◌, ◌++◌, map, Str, str, str_eq, if◌then◌else◌, length, Map,
  lookup,
}
use picoclawnim.Base.Strings.{join_with}
use picoclawnim.Providers.Types.{Message, plain}
use picoclawnim.Tools.Registry.{Tool, get_summaries}
use picoclawnim.Skills.Loader.{
  Fs, SkillsLoader, list_skills, load_skills_for_context, build_skills_summary,
}
use picoclawnim.Agent.Memory.{MemoryStore, get_memory_context}

-- What the builder reads of its surroundings: the time, the runtime, the absolute form of the
-- workspace's path, the files in the workspace by name, the skills, and the notes with the two
-- forms of the date.
pub record Surroundings : Type 0 where
  pub now : Str
  pub runtime : Str
  pub workspace_path : Str
  pub files : Map Str
  pub fs : Fs
  pub skills : SkillsLoader
  pub ago : ℕ → Str
  pub heading : Str
  pub memory : MemoryStore

-- The lobster of the first line, in UTF-8.
abbrev lobster : Str
lobster = 240 ∷ 159 ∷ 166 ∷ 158 ∷ []

unfoldable pub lines_of : List Str → Str
lines_of [] = []
lines_of (s ∷ ss) = s ++ (str "\n" ++ lines_of ss)

unfoldable pub summaries_section : List Str → Str
unfolding lines_of
summaries_section [] = []
summaries_section (s ∷ ss) =
    str "## Available Tools\n\n"
    ++ (str
          "**CRITICAL**: You MUST use tools to perform actions. Do NOT pretend to execute commands or schedule tasks.\n\n"
        ++ (str "You have access to the following tools:\n\n" ++ lines_of (s ∷ ss)))

-- `buildToolsSection`; without a registry there is no section.
unfoldable pub build_tools_section : {W : Type 0} → Option (Map (Tool W)) → Str
unfolding summaries_section
build_tools_section none = []
build_tools_section (some r) = summaries_section (get_summaries r)

unfoldable pub get_identity : {W : Type 0} → Option (Map (Tool W)) → Surroundings → Str
unfolding build_tools_section
get_identity tools e =
    str "# picoclaw "
    ++ (lobster
        ++ (str "\n\nYou are picoclaw, a helpful AI assistant.\n\n## Current Time\n"
            ++ (e.now
                ++ (str "\n\n## Runtime\n"
                    ++ (e.runtime
                        ++ (str "\n\n## Workspace\nYour workspace is at: "
                            ++ (e.workspace_path
                                ++ (str "\n- Memory: "
                                    ++ (e.workspace_path
                                        ++ (str "/memory/MEMORY.md\n- Daily Notes: "
                                            ++ (e.workspace_path
                                                ++ (str "/memory/YYYYMM/YYYYMMDD.md\n- Skills: "
                                                    ++ (e.workspace_path
                                                        ++ (str "/skills/{skill-name}/SKILL.md\n\n"
                                                            ++ (build_tools_section tools
                                                            ++ (str
                                                            "\n\n## Important Rules\n\n1. **ALWAYS use tools** - When you need to perform an action (schedule reminders, send messages, execute commands, etc.), you MUST call the appropriate tool. Do NOT just say you'll do it or pretend to do it.\n\n2. **Be helpful and accurate** - When using tools, briefly explain what you're doing.\n\n3. **Memory** - When remembering something, write to "
                                                            ++ (e.workspace_path
                                                            ++ str
                                                            "/memory/MEMORY.md")))))))))))))))))

unfoldable pub bootstrap_section : Str → Option Str → Str
bootstrap_section name none = []
bootstrap_section name (some data_) = str "## " ++ (name ++ (str "\n\n" ++ (data_ ++ str "\n\n")))

unfoldable pub bootstrap_sections : List Str → Map Str → Str
unfolding bootstrap_section
bootstrap_sections [] files = []
bootstrap_sections (n ∷ ns) files =
    bootstrap_section n (lookup n files) ++ bootstrap_sections ns files

-- `LoadBootstrapFiles`
unfoldable pub load_bootstrap_files : Map Str → Str
unfolding bootstrap_sections
load_bootstrap_files files =
    bootstrap_sections (str "AGENTS.md" ∷ str "SOUL.md" ∷ str "USER.md" ∷ str "IDENTITY.md" ∷ [])
      files

-- A part of the prompt, under a title, if it is not empty.
unfoldable pub part : Str → Str → List Str
part title content = if str_eq content [] then [] else (title ++ content) ∷ []

unfoldable pub build_system_prompt : {W : Type 0} → Option (Map (Tool W)) → Surroundings → Str
unfolding get_identity load_bootstrap_files part
build_system_prompt tools e = join_with (str "\n\n---\n\n") (
    get_identity tools e
    ∷ (part [] (load_bootstrap_files e.files)
        ++ (part
              (str
                "# Skills\n\nThe following skills extend your capabilities. To use a skill, read its SKILL.md file using the read_file tool.\n\n")
              (build_skills_summary e.fs e.skills)
            ++ part (str "# Memory\n\n") (get_memory_context e.ago e.heading e.memory))))

unfoldable pub add_tool_result : List Message → Str → Str → Str → List Message
add_tool_result ms id name result =
    ms ++ record { role = str "tool"; content = result; tool_calls = []; tool_call_id = id } ∷ []

-- The calls are not kept.
unfoldable pub add_assistant_message : {C : Type 0} → List Message → Str → List C → List Message
add_assistant_message ms content calls = ms ++ plain (str "assistant") content ∷ []

unfoldable pub skill_names : Surroundings → List Str
skill_names e = map (λ s. s.name) (list_skills e.fs e.skills)

-- `loadSkills`
unfoldable pub load_skills : Surroundings → Str
unfolding skill_names
load_skills e =
    let content = load_skills_for_context e.fs e.skills (skill_names e) in
    if str_eq content [] then [] else str "# Skill Definitions\n\n" ++ content

pub record SkillsTotal : Type 0 where
  pub total : ℕ
  pub available : ℕ
  pub names : List Str

-- `GetSkillsInfo`
unfoldable pub get_skills_info : Surroundings → SkillsTotal
unfolding skill_names
get_skills_info e = record {
  total = length (list_skills e.fs e.skills);
  available = length (list_skills e.fs e.skills);
  names = skill_names e;
}
