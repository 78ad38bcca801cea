-- ===== src/Relay/Mailbox/Frames.antt =====
-- apps/relay/src/do.ts: what the relay does with a frame of the listener (`webSocketMessage`,
-- `advanceCall`, `validDurableLease`), and the draining of the outbox.
use agentcall.Base.{
  ℕ, ◌+◌, Bool, true, false, not, ◌&&◌, ◌||◌, Option, none, some, String, List, [], ◌∷◌, ◌==◌,
  if◌then◌else◌, get_or, string_eq, nat_eq, pair_eq, min,
}
use agentcall.Base.Map.{put, delete}
use agentcall.Relay.Lifecycle.{
  LiveCallPhase, CallTerminalReason, phase_rank, advance_authorized_call, terminate_authorized_call,
}
use agentcall.Relay.Task.{
  PersistedTask, Envelope, CallState, ringing, answered, working, TaskState, DeliveryState,
  TerminalReason, is_durable,
}
use agentcall.Relay.Store.{
  Storage, CallAuditIntent, CallAuditEvent, accept, fail, complete, handle, due_key, start_key,
}
use agentcall.Relay.Audit.{Source, call_audit_intent, record_intent, earlier_alarm}
use agentcall.Relay.Mailbox.{team_call_lifecycle, durable_phase}
use agentcall.Shared.Limits.{relay_call_timeout_ms}
use agentcall.Relay.Mailbox.Admit.{persist_task_with_audit}
use agentcall.Relay.Mailbox.Dispatch.{IncomingCall, ListenerAttachment}

pub data OutcomeTerminal : Type 0 where
  completed failed : OutcomeTerminal

-- `E2EEListenerToRelayFrame`
pub data ListenerFrame : Type 0 where
  call_accepted call_started call_cancelled call_not_cancelled call_rejected : ListenerFrame
  call_outcome : OutcomeTerminal → Option TerminalReason → Envelope → ListenerFrame

pub record ListenerMessage : Type 0 where
  pub call_id : String
  pub lease_id : Option String
  pub frame : ListenerFrame

-- What a handler sends, or resolves: the frames to the caller of a call, the delivery to the
-- listener, and the answer to whoever waits for a cancellation.
pub data Output : Type 0 where
  call_status : String → CallState → Output
  call_error_canceled call_error_protocol call_error_timeout : String → Output
  outcome_forwarded : String → Envelope → Output
  delivered : IncomingCall → Output
  cancellation_settled : String → Bool → Output

abbrev pub source_of : ListenerAttachment → Source
source_of l = record { actor_ip = l.actor_ip; actor_country = l.actor_country }

abbrev pub is_text : Option String → Option String → Bool
is_text (some s) (some t) = s == t
is_text none none = true
is_text _ _ = false

unfoldable pub valid_durable_lease : PersistedTask → Option String → ListenerAttachment → Bool
valid_durable_lease task lease_id listener = not (is_durable task) || elim task.lease [
  | none ↦ false
  | some lease ↦
      is_text lease_id (some lease.lease_id)
      && is_text listener.listener_session_id (some lease.listener_session_id)
]

abbrev pub is_working : CallState → Bool
is_working working = true
is_working _ = false

abbrev pub is_ringing : CallState → Bool
is_ringing ringing = true
is_ringing _ = false

abbrev pub is_answered : CallState → Bool
is_answered answered = true
is_answered _ = false

-- Of the record that `advanceCall` writes, all but the deadline of a durable start.
abbrev pub advanced_task : CallState → ℕ → PersistedTask → PersistedTask
advanced_task state now task = record task {
  state = state;
  task_state = if is_working state then TaskState.task_working else task.task_state;
  delivery_state =
      if is_working state && is_durable task
      then some DeliveryState.started
      else task.delivery_state;
  updated_at = now;
}

abbrev pub execution_deadline_of : ListenerAttachment → ℕ → PersistedTask → ℕ
execution_deadline_of listener now task =
    min (get_or task.execute_by task.deadline)
      (now + get_or listener.execution_timeout_ms relay_call_timeout_ms)

unfoldable pub next_task : CallState → ListenerAttachment → ℕ → PersistedTask → PersistedTask
next_task state listener now task =
    if is_working state && is_durable task
    then record (advanced_task state now task) {
      execution_deadline = some (execution_deadline_of listener now task);
      deadline = execution_deadline_of listener now task;
    }
    else advanced_task state now task

unfoldable pub accepted_intent :
    CallState → ListenerAttachment → ℕ → PersistedTask → PersistedTask → Option CallAuditIntent
accepted_intent state listener now task next =
    if is_answered state || (is_working state && is_ringing task.state)
    then call_audit_intent accept next task.to handle (source_of listener) now
    else none

-- The start of a durable call moves its deadline and counts towards the daily starts.
unfoldable pub start_durable :
    ℕ → PersistedTask → PersistedTask → Option CallAuditIntent → Storage → Storage
start_durable now task next intent s = record_intent now intent (record s {
  calls = put task.call_id next s.calls;
  due =
      if due_key task == due_key next
      then s.due
      else put (due_key next) next.call_id (delete (due_key task) s.due);
  starts = put (start_key now next.call_id) now s.starts;
  alarm = earlier_alarm s.alarm next.deadline;
})

abbrev pub same_phase : LiveCallPhase → LiveCallPhase → Bool
same_phase a b = phase_rank a == phase_rank b

-- A duplicate or backward frame leaves the phase where it is.
unfoldable pub unmoved : CallState → PersistedTask → Bool
unmoved state task =
    same_phase (advance_authorized_call (team_call_lifecycle task) (durable_phase state)).phase
      (durable_phase task.state)

unfoldable pub write_advance :
    CallState → ListenerAttachment → ℕ → PersistedTask → Storage → Storage
write_advance state listener now task s =
    let next = next_task state listener now task in
    let intent = accepted_intent state listener now task next in
    if is_working state && is_durable task
    then start_durable now task next intent s
    else elim intent [
      | none ↦ record s { calls = put task.call_id next s.calls }
      | some i ↦ persist_task_with_audit now next (some i) s
    ]

unfoldable pub advance_call :
    CallState → ListenerAttachment → ℕ → PersistedTask → Storage → Storage × List Output
advance_call state listener now task s =
    if unmoved state task
    then (s, [])
    else (write_advance state listener now task s, call_status task.call_id state ∷ [])

-- What every final frame of a durable call drops and sets.
abbrev pub ended : ℕ → TerminalReason → ℕ → PersistedTask → PersistedTask
ended deadline reason bytes task = record task {
  request_envelope = none;
  lease = none;
  deadline = deadline;
  delivery_state = some DeliveryState.terminal;
  terminal_reason = some reason;
  ciphertext_bytes = some bytes;
}

abbrev pub if_durable : PersistedTask → PersistedTask → PersistedTask
if_durable t u = if is_durable t then u else t

unfoldable pub cancelled_task : ℕ → PersistedTask → PersistedTask
cancelled_task now task =
    let cancellation =
      terminate_authorized_call (team_call_lifecycle task) CallTerminalReason.canceled in
    let t = record task {
      task_state = TaskState.canceled;
      updated_at = now;
      principal = some cancellation.principal;
    } in
    if_durable t (ended (get_or t.purge_at t.deadline) TerminalReason.canceled 0 t)

unfoldable pub rejected_task : ℕ → PersistedTask → PersistedTask
rejected_task now task =
    let t = record task { task_state = TaskState.failed; updated_at = now } in
    if_durable t (ended (get_or t.purge_at t.deadline) TerminalReason.delivery_failed 0 t)

abbrev pub outcome_state : OutcomeTerminal → TaskState
outcome_state completed = TaskState.completed
outcome_state failed = TaskState.failed

abbrev pub outcome_reason : OutcomeTerminal → TerminalReason
outcome_reason completed = TerminalReason.completed
outcome_reason failed = TerminalReason.failed

abbrev pub outcome_event : OutcomeTerminal → CallAuditEvent
outcome_event completed = complete
outcome_event failed = fail

-- `byte_length` is the UTF-8 length of an envelope's JSON text.
unfoldable pub finished_task :
    (Envelope → ℕ)
    → OutcomeTerminal
    → Option TerminalReason
    → Envelope
    → ℕ
    → PersistedTask
    → PersistedTask
finished_task byte_length terminal reason envelope now task =
    let t = record task {
      task_state = outcome_state terminal;
      outcome_envelope = some envelope;
      updated_at = now;
    } in
    if_durable t (
      ended (get_or t.execute_by t.deadline) (get_or reason (outcome_reason terminal))
        (byte_length envelope) t)
