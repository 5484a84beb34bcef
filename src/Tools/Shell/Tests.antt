-- ===== src/Tools/Shell/Tests.antt =====
-- The theorems on the shell tool (pkg/tools/shell.go) for a restricted tool.
use picoclawnim.Base.{
  ℕ, ◌+◌, ◌≡◌, refl, Bool, true, false, none, some, Option, List, [], ◌∷◌, ◌++◌, Str, str, str_eq,
  contains, ◌&&◌, if◌then◌else◌,
}
use picoclawnim.Base.Strings.{trim_space}
use picoclawnim.Json.{Fields, field, end, text, get_string}
use picoclawnim.Tools.Registry.{ok}
use picoclawnim.Tools.Shell.Exec.{
  ExecTool, new_exec_tool, set_restrict_to_workspace, Shell, guard_command, dir_of, execute_shell,
  blocked,
}

-- A shell that counts commands; its patterns are plain texts, and the only path of a command is its
-- last word in `/etc`.
abbrev shell : Shell ℕ
shell = record {
  matches = λ p s. str_eq p (str "\\b(shutdown|reboot|poweroff)\\b") && contains s (str "reboot");
  compile_error = λ p. none;
  find_paths = λ s. if contains s (str "/etc") then str "/etc" ∷ [] else [];
  abs = λ p. some p;
  rel = λ base p. some (if str_eq p (str "/etc") then str "../etc" else str ".");
  getwd = none;
  run = λ c d n. (record { stdout = c; stderr = []; failure = none; timed_out = false }, n + 1);
}

abbrev tool : ExecTool
tool = record (new_exec_tool (str "/ws")) { restrict_to_workspace = true }

abbrev climb : Fields
climb = field (str "command") (text (str "cd .. && cat notes")) end

abbrev peek : Fields
peek = field (str "command") (text (str "cat /etc/passwd")) end

peek_command : get_string (str "command") peek ≡ some (str "cat /etc/passwd")
unfolding get_string picoclawnim.Json.get_field str_eq
peek_command = refl

abbrev outside : Str
outside = str "Command blocked by safety guard (path outside working dir)"

peek_blocked :
    guard_command shell tool (str "cat /etc/passwd") (dir_of shell tool peek) ≡ some outside
unfolding guard_command new_exec_tool str_eq contains picoclawnim.Base.to_lower
    picoclawnim.Base.Strings.trim_space picoclawnim.Base.Strings.trim
    picoclawnim.Base.Strings.trim_right picoclawnim.Base.Strings.trim_left
    picoclawnim.Base.Strings.is_space picoclawnim.Tools.Shell.Exec.is_outside
peek_blocked = refl

listed :
    execute_shell shell tool (field (str "command") (text (str "ls")) end) 7 ≡ (ok (str "ls"), 8)
unfolding execute_shell get_string picoclawnim.Json.get_field str_eq new_exec_tool contains
    picoclawnim.Base.to_lower picoclawnim.Base.Strings.trim_space picoclawnim.Base.Strings.trim
    picoclawnim.Base.Strings.trim_right picoclawnim.Base.Strings.trim_left
    picoclawnim.Base.Strings.is_space
listed = refl
