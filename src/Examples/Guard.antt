-- ===== src/Examples/Guard.antt =====
-- Concrete calls of the tool guard: a home with a linked directory, and a log that is a list.
use agentcall.Base.{
  true, false, none, some, String, List, [], ◌∷◌, ◌≡◌, refl, ◌↔◌, if◌then◌else◌, ◌==◌, string_eq,
  split, strip_prefix, ends_with, intercalate, text_length, list_eq,
}
use agentcall.Base.Map.{lookup}
use agentcall.Cli.Guard.Paths.{
  FilePath, Host, absolute_path, basename, canonical, canonical_path, expand_home, is_inside, join,
  longest_existing, normalize, path_length, relative, render, resolve_from,
}
use agentcall.Cli.Guard.Containment.{Contains, is_inside_lem}
use agentcall.Cli.Guard.Canonical.{Canonical, canonical_path-Canonical}
use agentcall.Cli.Guard.Scope.{denied_basename, denied_name, denied_roots, is_readable, unique}
use agentcall.Cli.Guard.Decide.{
  Value, text, allow, canon, decide, decide_target, decide_tool, is_mcp_tool, target_inside_secret,
  unreachable, DecideContext,
}
use agentcall.Cli.Guard.Run.{GuardDeps, LogLine, RawCall, fields}
use agentcall.Cli.Guard.Reach.{decide-Read, Outside, UnderRoot}

-- `/tmp/link` leads to the home; only what stands below these two is there.
abbrev host : Host
host = record {
  process_cwd = "home" ∷ "o" ∷ [];
  realpath = λ p.
      if p == "tmp" ∷ "link" ∷ []
      then some ("home" ∷ "o" ∷ [])
      else if p == "home" ∷ "o" ∷ []
      then some p
      else none;
  fold = λ s. s;
}

abbrev ctx : DecideContext
ctx = record {
  user_home = "/home/o";
  scope = record { roots = "~" ∷ []; denied = [] };
  guard_root = "/opt/agentcall";
  extra_secret_roots = "/home/o/AgentCall/tasks" ∷ [];
}

abbrev notes_args : List (String × Value)
notes_args = ("file_path", text "/tmp/link/notes/a.md") ∷ []

abbrev grep_args : List (String × Value)
grep_args = ("path", text "notes") ∷ ("glob", text "x/*.md") ∷ []

abbrev skill : FilePath
skill = "home" ∷ "o" ∷ ".claude" ∷ "skills" ∷ "s" ∷ "x.md" ∷ []

-- A name that begins with two dots stands below the directory and is not inside it.
two_dots :
    is_inside host ("home" ∷ "o" ∷ ".aws" ∷ "..data" ∷ []) ("home" ∷ "o" ∷ ".aws" ∷ []) ≡ false
unfolding is_inside relative strip_prefix
two_dots = refl

-- `is_readable` lets the skill's file through.
skill-is_readable : is_readable host ctx.scope skill "/home/o" "/home/o" ≡ true
unfolding is_readable canonical_path longest_existing canonical absolute_path resolve_from is_inside
    relative strip_prefix split expand_home join normalize intercalate denied_basename denied_name
    render basename ends_with path_length text_length
skill-is_readable = refl

notes_allowed :
    decide host ctx (record { tool_name = "Read"; tool_input = some notes_args; cwd = "/home/o" })
    ≡ allow none
unfolding decide decide_tool decide_target is_mcp_tool unreachable target_inside_secret denied_roots
    unique is_readable canonical_path longest_existing canonical absolute_path resolve_from
    is_inside relative strip_prefix split expand_home join normalize intercalate denied_basename
    denied_name render basename ends_with path_length text_length lookup
notes_allowed = refl

abbrev skill_args : List (String × Value)
skill_args = ("file_path", text "/home/o/.claude/skills/s/x.md") ∷ []

abbrev deps : GuardDeps (List LogLine)
deps = record {
  user_home = "/home/o";
  tasks_dir = "/home/o/AgentCall/tasks";
  tools_log = "tools.log";
  calls_log = "calls.log";
  package_root = "/opt/agentcall";
  call_id = "c1";
  correlation_id = none;
  now = "2026-08-07T00:00:00.000Z";
  scope = ctx.scope;
  append_line = λ file entry log. if file == "full" then none else some (entry ∷ log);
}

abbrev call : RawCall
call = record {
  tool_name = some (text "Read");
  tool_input = fields notes_args;
  cwd = some (text "/home/o");
}

is_inside_lem_example :
    (is_inside host ("home" ∷ "o" ∷ "b" ∷ []) ("home" ∷ "o" ∷ []) ≡ true)
    ↔ Contains host ("home" ∷ "o" ∷ []) ("home" ∷ "o" ∷ "b" ∷ [])
is_inside_lem_example = is_inside_lem host ("home" ∷ "o" ∷ "b" ∷ []) ("home" ∷ "o" ∷ [])

canonical_path-Canonical_example :
    Canonical host.realpath
      ("tmp" ∷ "link" ∷ "key" ∷ [])
      (canonical_path host ("tmp" ∷ "link" ∷ "key" ∷ []))
canonical_path-Canonical_example = canonical_path-Canonical host ("tmp" ∷ "link" ∷ "key" ∷ [])

decide-Read_example :
    (raw : String) × (lookup "file_path" notes_args ≡ some (text raw))
    × (denied_basename host (render (canon host ctx "/home/o" raw)) ≡ false)
    × Outside host ctx "/home/o" (canon host ctx "/home/o" raw)
    × UnderRoot host ctx "/home/o" (canon host ctx "/home/o" raw)
decide-Read_example = decide-Read host ctx "/home/o" notes_args {flag = none} notes_allowed
