-- ===== src/Cli/Guard/Run.antt =====
-- packages/cli/src/guard.ts: `runGuard`, the hook's one call. A text that `JSON.parse` refuses, or
-- that is `null`, parses to `none`; a write to a log that throws gives `none`.
use agentcall.Base.{
  ℕ, Bool, true, false, Option, none, some, String, List, [], ◌∷◌, if◌then◌else◌, string_eq, ◌==◌,
}
use mathlib.Core.Option
use agentcall.Cli.Guard.Paths.{Host}
use agentcall.Cli.Guard.Scope.{Scope}
use agentcall.Cli.Guard.Decide.{
  Value, text, GuardInput, Finding, GuardVerdict, allow, deny, DecideContext, decide,
}

-- `tool_input` as it was parsed: absent or `null`, an object, or anything else.
pub data RawInput : Type 0 where
  absent : RawInput
  fields : List (String × Value) → RawInput
  unusable : RawInput

pub record RawCall : Type 0 where
  pub tool_name : Option Value
  pub tool_input : RawInput
  pub cwd : Option Value

pub data LogKind : Type 0 where
  tool_call : Bool → LogKind
  tool_flagged tool_denied : Finding → LogKind

pub record LogLine : Type 0 where
  pub ts : String
  pub kind : LogKind
  pub call_id : String
  pub correlation_id : Option String
  pub tool : String

pub record GuardDeps (L : Type 0) : Type 0 where
  pub user_home : String
  pub tasks_dir : String
  pub tools_log : String
  pub calls_log : String
  pub package_root : String
  pub call_id : String
  pub correlation_id : Option String
  pub now : String
  pub scope : Scope
  pub append_line : String → LogLine → L → Option L

pub record GuardOutput : Type 0 where
  pub exit_code : ℕ
  pub stdout : String
  pub stderr : String

abbrev pub deny_reason : String
deny_reason = "This action is not permitted by the answering agent's policy."

abbrev pub fail_closed_reason : String
fail_closed_reason = "The answering agent's policy guard could not evaluate this action."

abbrev pub allow_output : GuardOutput
allow_output = record { exit_code = 0; stdout = ""; stderr = "" }

abbrev pub fail_closed : GuardOutput
fail_closed = record { exit_code = 2; stdout = ""; stderr = fail_closed_reason }

abbrev pub denial : GuardOutput
denial = record {
  exit_code = 0;
  stdout =
      "{\"hookSpecificOutput\":{\"hookEventName\":\"PreToolUse\",\"permissionDecision\":\"deny\",\"permissionDecisionReason\":\"This action is not permitted by the answering agent's policy.\"}}";
  stderr = "";
}

abbrev pub input_of : RawInput → Option (List (String × Value))
input_of absent = some []
input_of (fields entries) = some entries
input_of unusable = none

abbrev pub text_or : String → Option Value → String
text_or fallback (some (text s)) = s
text_or fallback _ = fallback

abbrev pub named_tool : Option Value → Option String
named_tool (some (text name)) = if name == "" then none else some name
named_tool _ = none

abbrev pub is_allowed : GuardVerdict → Bool
is_allowed (allow _) = true
is_allowed (deny _) = false

-- `verdict.allow ? verdict.flag : verdict`
abbrev pub noteworthy : GuardVerdict → Option LogKind
noteworthy (allow none) = none
noteworthy (allow (some flag)) = some (tool_flagged flag)
noteworthy (deny finding) = some (tool_denied finding)

-- The field is left out where the id is absent or empty.
abbrev pub correlation : Option String → Option String
correlation none = none
correlation (some id) = if id == "" then none else some id

module _ {L : Type 0} where
  unfoldable pub read_input : GuardDeps L → Option RawCall → Option GuardInput
  read_input deps none = none
  read_input deps (some call) =
      Option.map
        (λ name. record {
          tool_name = name;
          tool_input = input_of call.tool_input;
          cwd = text_or deps.user_home call.cwd;
        })
        (named_tool call.tool_name)

  abbrev pub context_of : GuardDeps L → DecideContext
  context_of deps = record {
    user_home = deps.user_home;
    scope = deps.scope;
    guard_root = deps.package_root;
    extra_secret_roots = deps.tasks_dir ∷ [];
  }

  abbrev pub line : GuardDeps L → LogKind → String → LogLine
  line deps kind tool = record {
    ts = deps.now;
    kind = kind;
    call_id = deps.call_id;
    correlation_id = correlation deps.correlation_id;
    tool = tool;
  }

  unfoldable pub write_note : GuardDeps L → String → Option LogKind → L → Option L
  write_note deps tool none log = some log
  write_note deps tool (some kind) log = deps.append_line deps.calls_log (line deps kind tool) log

  unfoldable pub answer : GuardDeps L → GuardInput → GuardVerdict → L → GuardOutput × L
  answer deps input verdict log =
      elim (deps.append_line deps.tools_log
        (line deps (tool_call (is_allowed verdict)) input.tool_name) log) [
          | none ↦ (fail_closed, log)
          | some logged ↦ elim (write_note deps input.tool_name (noteworthy verdict) logged) [
            | none ↦ (fail_closed, logged)
            | some noted ↦ (if is_allowed verdict then allow_output else denial, noted)
          ]
        ]

  unfoldable pub run_guard : Host → GuardDeps L → Option RawCall → L → GuardOutput × L
  run_guard host deps parsed log = elim (read_input deps parsed) [
    | none ↦ (fail_closed, log)
    | some input ↦ answer deps input (decide host (context_of deps) input) log
  ]
