-- ===== src/Cli/Listener/Admission.antt =====
-- packages/cli/src/listener-stages.ts: `handleCancel`, `resolveAdmission` and `admitBinding`, and
-- abuse-signals.ts: what a caller is admitted to.
pub mod Resumed
use agentcall.Base.{
  ℕ, Bool, true, false, ◌&&◌, ◌||◌, Option, none, some, String, List, [], ◌∷◌, if◌then◌else◌, ltb,
  ◌==◌, string_eq,
}
use agentcall.Cli.Access.{
  Policy, PolicyFile, Task, TaskResolution, call_blocked, load_policy, resolve_task, resolved,
  task_unknown,
}
use agentcall.Cli.Guard.Scope.{Scope, ScopeFile, load_scope}
use agentcall.Cli.Guard.Scope
use agentcall.Cli.Contexts.{
  AgentKind, claude, codex, AdmitInput, ContextBinding, admit_context, prune_contexts,
}
use agentcall.Cli.Listener.Queue.{Canceled, SerialQueue, cancel, pending, running, unknown}

pub data CancelReply : Type 0 where
  call_cancelled call_not_cancelled : String → Option String → CancelReply

-- The frame that is sent at once; a running job answers when it settles.
unfoldable pub handle_cancel :
    String → Option String → SerialQueue → SerialQueue × Option CancelReply
handle_cancel call_id lease_id queue =
    let (left, outcome) = cancel call_id queue in
    (
      left,
      elim outcome [
        | pending ↦ some (call_cancelled call_id lease_id)
        | unknown ↦ some (call_not_cancelled call_id lease_id)
        | running ↦ none
      ],
    )

-- `task` is absent only where the built-in task is.
pub data AdmissionDecision : Type 0 where
  admitted : Option Task → Policy → Scope → AdmissionDecision
  policy_error : AdmissionDecision
  blocked : AdmissionDecision
  task_not_known : List String → AdmissionDecision

abbrev pub decision_of : Policy → Scope → TaskResolution → AdmissionDecision
decision_of policy scope (resolved task) = admitted task policy scope
decision_of policy scope call_blocked = blocked
decision_of policy scope (task_unknown offered) = task_not_known offered

abbrev pub scope_of : Scope.Loaded → Option Scope
scope_of (Scope.loaded scope) = some scope
scope_of (Scope.threw error) = none

-- `tasks` is `none` where `loadTasks` throws.
unfoldable pub resolve_admission :
    PolicyFile → ScopeFile → Option (List Task) → String → Option String → AdmissionDecision
resolve_admission policy_file scope_file tasks from requested = elim (load_policy policy_file) [
  | none ↦ policy_error
  | some policy ↦ elim (scope_of (load_scope scope_file)) [
    | none ↦ policy_error
    | some scope ↦ elim tasks [
      | none ↦ policy_error
      | some known ↦ decision_of policy scope (resolve_task policy known from requested)
    ]
  ]
]

pub record BindingInput : Type 0 where
  pub from : String
  pub task_id : String
  pub context_id : Option String
  pub threadable : Bool
  pub agent_kind : AgentKind
  pub codex_can_thread : Bool
  pub workdir : String
  pub now : ℕ

abbrev pub is_claude : AgentKind → Bool
is_claude claude = true
is_claude codex = false

abbrev pub threading_available : BindingInput → Bool
threading_available i = i.threadable && (is_claude i.agent_kind || i.codex_can_thread)

pub data BindingDecision : Type 0 where
  bound : List ContextBinding → Option ContextBinding → BindingDecision
  unbound : List ContextBinding → BindingDecision

abbrev pub admit_input : BindingInput → String → AdmitInput
admit_input i id = record {
  context_id = id;
  caller = i.from;
  task = i.task_id;
  agent_kind = i.agent_kind;
  workdir = i.workdir;
  now = i.now;
}

unfoldable pub admit_binding : BindingInput → List ContextBinding → BindingDecision
admit_binding i stored =
    let contexts = prune_contexts stored i.now in
    elim i.context_id [
      | none ↦ bound contexts none
      | some id ↦
          elim (if threading_available i then admit_context contexts (admit_input i id) else none) [
            | none ↦ unbound contexts
            | some binding ↦ bound contexts (some binding)
          ]
    ]

pub data AbuseSeverity : Type 0 where
  low medium high : AbuseSeverity

abbrev pub rank : AbuseSeverity → ℕ
rank low = 1
rank medium = 2
rank high = 3

unfoldable pub max_abuse_severity : Option AbuseSeverity → AbuseSeverity → AbuseSeverity
max_abuse_severity none right = right
max_abuse_severity (some left) right = if ltb (rank left) (rank right) then right else left

pub data AbuseFlag : Type 0 where
  blocked_caller_attempt unknown_task_request tool_policy_denial : AbuseFlag

unfoldable pub signal_for_inbound_status : String → List AbuseFlag × Option AbuseSeverity
signal_for_inbound_status status =
    if status == "blocked"
    then (blocked_caller_attempt ∷ [], some high)
    else if status == "task_unknown"
    then (unknown_task_request ∷ [], some low)
    else ([], none)
