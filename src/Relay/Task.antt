-- ===== src/Relay/Task.antt =====
-- apps/relay/src/task-store.ts: the persisted record of a call.
use agentcall.Base.{ℕ, Bool, true, false, Option, none, some, String, ◌==◌, string_eq, nat_eq}
use agentcall.Relay.Lifecycle.{TeamCallPrincipal}

-- `CallStatusType["state"]`
pub data CallState : Type 0 where
  ringing answered working : CallState

-- `A2ATaskStateType`
pub data TaskState : Type 0 where
  submitted task_working completed failed canceled input_required rejected auth_required : TaskState

pub data DeliveryState : Type 0 where
  queued leased started terminal : DeliveryState

-- `AgentCallTerminalReasonType`
pub data TerminalReason : Type 0 where
  completed failed canceled expired delivery_failed revoked indeterminate_execution : TerminalReason

-- An `HpkeEnvelopeType`: the relay reads the routing header, and `content` is the rest, which it
-- only stores and forwards.
pub record Envelope : Type 0 where
  pub relay_origin : String
  pub from : String
  pub to : String
  pub content : String

pub record Lease : Type 0 where
  pub lease_id : String
  pub listener_session_id : String
  pub expires_at : ℕ
  pub attempt : ℕ

pub record PersistedTask : Type 0 where
  pub call_id : String
  pub correlation_id : String
  pub from : String
  pub org : String
  pub to : String
  pub deadline : ℕ
  pub state : CallState
  pub task_state : TaskState
  pub created_at : ℕ
  pub updated_at : ℕ
  pub principal : Option TeamCallPrincipal
  pub outcome_envelope : Option Envelope
  pub message_id : Option String
  pub from_agent_id : Option String
  pub from_credential_generation : Option ℕ
  pub target_agent_id : Option String
  pub request_envelope : Option Envelope
  pub request_envelope_sha256 : Option String
  pub delivery_state : Option DeliveryState
  pub traceparent : Option String
  pub lease : Option Lease
  pub execute_by : Option ℕ
  pub execution_deadline : Option ℕ
  pub purge_at : Option ℕ
  pub terminal_reason : Option TerminalReason
  pub ciphertext_bytes : Option ℕ
  pub quota_released : Bool

abbrev state_number : TaskState → ℕ
state_number submitted = 0
state_number task_working = 1
state_number TaskState.completed = 2
state_number TaskState.failed = 3
state_number TaskState.canceled = 4
state_number input_required = 5
state_number rejected = 6
state_number auth_required = 7

abbrev pub same_state : TaskState → TaskState → Bool
same_state a b = state_number a == state_number b

-- `TERMINAL_TASK_STATES.has`
abbrev pub is_terminal_state : TaskState → Bool
is_terminal_state TaskState.completed = true
is_terminal_state TaskState.failed = true
is_terminal_state TaskState.canceled = true
is_terminal_state rejected = true
is_terminal_state submitted = false
is_terminal_state task_working = false
is_terminal_state input_required = false
is_terminal_state auth_required = false

abbrev pub task_belongs_to_caller : PersistedTask → String → Bool
task_belongs_to_caller task caller = task.from == caller

abbrev pub task_is_terminal : PersistedTask → Bool
task_is_terminal task = is_terminal_state task.task_state

-- `!!task.delivery_state`
abbrev pub is_durable : PersistedTask → Bool
is_durable task = elim task.delivery_state [ none ↦ false | some _ ↦ true ]

abbrev pub is_queued : PersistedTask → Bool
is_queued task = elim task.delivery_state [
  | none ↦ false
  | some d ↦ elim d [ queued ↦ true | _ ↦ false ]
]

abbrev pub is_leased : PersistedTask → Bool
is_leased task = elim task.delivery_state [
  | none ↦ false
  | some d ↦ elim d [ leased ↦ true | _ ↦ false ]
]

abbrev pub is_started : PersistedTask → Bool
is_started task = elim task.delivery_state [
  | none ↦ false
  | some d ↦ elim d [ started ↦ true | _ ↦ false ]
]
