-- ===== src/Tools/Shell/Guard.antt =====
-- What the guard of pkg/tools/shell.go lets through.
use picoclawnim.Base.{
  ◌≡◌, refl, true, false, ◌||◌, none, some, ◌++◌, arith, Str, str, any, contains, to_lower,
}
use picoclawnim.Base.Strings.{trim_space}
use picoclawnim.Json.{Fields, get_string}
use picoclawnim.Tools.Registry.{ok}
use picoclawnim.Tools.Shell.Exec.{
  ExecTool, Shell, guard_paths, guard_workspace, guard_command, is_allowed, is_outside, dir_of,
  run_guarded, execute_command, execute_shell,
}

module _ {W : Type 0} (sh : Shell W) where
  -- The tests of the guard for a command in a directory.
  pub record IsSafe (t : ExecTool) (command base : Str) : Type 0 where
    pub not_denied : any (λ p. sh.matches p (to_lower (trim_space command))) t.deny_patterns ≡ false
    pub allowed : is_allowed sh t.allow_patterns (to_lower (trim_space command)) ≡ true
    pub no_traversal :
        (contains (trim_space command) (str "..\\") || contains (trim_space command) (str "../"))
        ≡ false
    pub inside : any (is_outside sh base) (sh.find_paths (trim_space command)) ≡ false

  -- What a restricted tool, whose directory has an absolute form, lets through has passed the tests
  -- of the guard: no denied pattern, an allowed one if there are any, no ../ or ..\, and no path that
  -- the pattern finds and that is told to be outside.
  pub guard_command-IsSafe :
      (t : ExecTool) (command cwd base : Str)
      → t.restrict_to_workspace ≡ true
      → sh.abs cwd ≡ some base
      → guard_command sh t command cwd ≡ none
      → IsSafe t command base
  unfolding guard_command guard_workspace guard_paths
  guard_command-IsSafe t command cwd base r a g = record {
    not_denied = ground (arith, g);
    allowed = ground (arith, g);
    no_traversal = ground (arith, g, r);
    inside = ground (arith, g, r, a);
  }

  -- A tool without the restriction to the workspace.
  abbrev pub unrestricted : ExecTool → ExecTool
  unrestricted t = record t { restrict_to_workspace = false }

  -- A command that the guard blocks is not run: the answer is the guard's message, and nothing in
  -- the world changes.
  pub execute_shell_blocked :
      (t : ExecTool) (args : Fields) (command why : Str) (w : W)
      → get_string (str "command") args ≡ some command
      → guard_command sh t command (dir_of sh t args) ≡ some why
      → execute_shell sh t args w ≡ (ok (str "Error: " ++ why), w)
  unfolding execute_shell execute_command run_guarded
  execute_shell_blocked t args command why w c g = rw (c, g) refl
