-- ===== src/Tools/Shell/Exec.antt =====
-- `ExecTool` of pkg/tools/shell.go. The commands run on a world `W`.
use picoclawnim.Base.{
  ℕ, ◌-◌, Bool, true, false, not, ◌||◌, Option, none, some, List, [], ◌∷◌, ◌++◌, Str, str, str_eq,
  if◌then◌else◌, ltb, length, take, any, has_prefix, contains, to_lower,
}
use picoclawnim.Base.Decimal.{decimal}
use picoclawnim.Base.Strings.{trim_space}
use picoclawnim.Json.{Fields, get_string}
use picoclawnim.Tools.Registry.{ToolResult, ok, err}

-- A pattern is its text; `timeout` is the text of the duration.
pub record ExecTool : Type 0 where
  pub working_dir : Str
  pub timeout : Str
  pub deny_patterns : List Str
  pub allow_patterns : List Str
  pub restrict_to_workspace : Bool

unfoldable pub new_exec_tool : Str → ExecTool
new_exec_tool dir = record {
  working_dir = dir;
  timeout = str "1m0s";
  deny_patterns =
      str "\\brm\\s+-[rf]{1,2}\\b"
      ∷ str "\\bdel\\s+/[fq]\\b"
      ∷ str "\\brmdir\\s+/s\\b"
      ∷ str "\\b(format|mkfs|diskpart)\\b\\s"
      ∷ str "\\bdd\\s+if="
      ∷ str ">\\s*/dev/sd[a-z]\\b"
      ∷ str "\\b(shutdown|reboot|poweroff)\\b"
      ∷ str ":\\(\\)\\s*\\{.*\\};\\s*:"
      ∷ [];
  allow_patterns = [];
  restrict_to_workspace = false;
}

unfoldable pub set_timeout : Str → ExecTool → ExecTool
set_timeout d t = record t { timeout = d }

unfoldable pub set_restrict_to_workspace : Bool → ExecTool → ExecTool
set_restrict_to_workspace b t = record t { restrict_to_workspace = b }

-- What a finished command leaves: its outputs, the text of its error, and whether the time ran out.
pub record Finished : Type 0 where
  pub stdout : Str
  pub stderr : Str
  pub failure : Option Str
  pub timed_out : Bool

-- What the tool uses of the system and the libraries: `MatchString` and `Compile` of regexp (with
-- the text of its error), `FindAllString` with the pattern of paths, `filepath.Abs` and
-- `filepath.Rel`, `os.Getwd`, and running a command in a directory.
pub record Shell (W : Type 0) : Type 0 where
  pub matches : Str → Str → Bool
  pub compile_error : Str → Option Str
  pub find_paths : Str → List Str
  pub abs : Str → Option Str
  pub rel : Str → Str → Option Str
  pub getwd : Option Str
  pub run : Str → Str → W → Finished × W

-- The message of the guard, or `none` where the source has the empty text.
abbrev pub blocked : Str → Option Str
blocked why = some (str "Command blocked by safety guard (" ++ (why ++ str ")"))

abbrev pub max_len : ℕ
max_len = 10000

unfoldable pub cut_output : Str → Str
unfolding decimal
cut_output s =
    if ltb max_len (length s)
    then take max_len s
      ++ (str "\n... (truncated, " ++ (decimal (length s - max_len) ++ str " more chars)"))
    else s

unfoldable pub with_stderr : Str → Str → Str
with_stderr out e = if str_eq e [] then out else out ++ (str "\nSTDERR:\n" ++ e)

unfoldable pub or_silent : Str → Str
or_silent s = if str_eq s [] then str "(no output)" else s

unfoldable pub output_text : Str → Finished → Str
unfolding with_stderr or_silent cut_output
output_text timeout r =
    let out = with_stderr r.stdout r.stderr in
    elim r.failure [
      | none ↦ cut_output (or_silent out)
      | some e ↦
          if r.timed_out
          then str "Error: Command timed out after " ++ timeout
          else cut_output (or_silent (out ++ (str "\nExit code: " ++ e)))
    ]

module _ {W : Type 0} (sh : Shell W) where
  -- The loop of `SetAllowPatterns`: the patterns up to the first that does not compile are taken.
  unfoldable pub compiled : List Str → List Str × Option Str
  compiled [] = ([], none)
  compiled (p ∷ ps) = elim (sh.compile_error p) [
    | some e ↦ ([], some e)
    | none ↦ let (qs, e) = compiled ps in (p ∷ qs, e)
  ]

  unfoldable pub set_allow_patterns : List Str → ExecTool → ExecTool × Option Str
  unfolding compiled
  set_allow_patterns ps t = let (qs, e) = compiled ps in (record t { allow_patterns = qs }, e)

  unfoldable pub leaves : Option Str → Bool
  leaves none = false
  leaves (some rel) = has_prefix rel (str "..")

  unfoldable pub rel_of : Str → Option Str → Option Str
  rel_of base none = none
  rel_of base (some p) = sh.rel base p

  -- Whether a path in the command is outside of the directory.
  unfoldable pub is_outside : Str → Str → Bool
  unfolding leaves rel_of
  is_outside base raw = leaves (rel_of base (sh.abs raw))

  unfoldable pub guard_paths : Option Str → Str → Option Str
  guard_paths none cmd = none
  guard_paths (some base) cmd =
      if any (is_outside base) (sh.find_paths cmd)
      then blocked (str "path outside working dir")
      else none

  unfoldable pub guard_workspace : Str → Str → Option Str
  unfolding guard_paths
  guard_workspace cmd cwd =
      if contains cmd (str "..\\") || contains cmd (str "../")
      then blocked (str "path traversal detected")
      else guard_paths (sh.abs cwd) cmd

  unfoldable pub is_allowed : List Str → Str → Bool
  is_allowed [] lower = true
  is_allowed (p ∷ ps) lower = any (λ q. sh.matches q lower) (p ∷ ps)

  -- `guardCommand`
  unfoldable pub guard_command : ExecTool → Str → Str → Option Str
  unfolding guard_workspace is_allowed
  guard_command t command cwd =
      let cmd = trim_space command in
      let lower = to_lower cmd in
      if any (λ p. sh.matches p lower) t.deny_patterns
      then blocked (str "dangerous pattern detected")
      else if not (is_allowed t.allow_patterns lower)
      then blocked (str "not in allowlist")
      else if t.restrict_to_workspace
      then guard_workspace cmd cwd
      else none

  unfoldable pub given_dir : Option Str → Str → Str
  given_dir none default = default
  given_dir (some d) default = if str_eq d [] then default else d

  unfoldable pub dir_of : ExecTool → Fields → Str
  unfolding given_dir
  dir_of t args =
      let cwd = given_dir (get_string (str "working_dir") args) t.working_dir in
      if str_eq cwd [] then given_dir sh.getwd cwd else cwd

  unfoldable pub run_guarded : ExecTool → Str → Str → Option Str → W → ToolResult × W
  unfolding output_text
  run_guarded t command cwd (some why) w = (ok (str "Error: " ++ why), w)
  run_guarded t command cwd none w =
      let (r, w') = sh.run command cwd w in (ok (output_text t.timeout r), w')

  unfoldable pub execute_command : ExecTool → Option Str → Fields → W → ToolResult × W
  unfolding run_guarded dir_of guard_command
  execute_command t none args w = (err (str "command is required"), w)
  execute_command t (some command) args w =
      let cwd = dir_of t args in run_guarded t command cwd (guard_command t command cwd) w

  -- `Execute`
  unfoldable pub execute_shell : ExecTool → Fields → W → ToolResult × W
  unfolding execute_command
  execute_shell t args w = execute_command t (get_string (str "command") args) args w
