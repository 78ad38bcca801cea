-- ===== src/Relay/Mailbox/Caller.antt =====
-- apps/relay/src/do.ts: the caller's side of `webSocketMessage`, without interruption, with
-- `sendQueuedReceipt` and `clampTimeoutMs`.
use agentcall.Base.{
  ℕ, ◌+◌, Bool, false, not, ◌&&◌, ◌||◌, Option, none, some, String, List, [], ◌∷◌, ◌==◌,
  if◌then◌else◌, get_or, leb, is_some, string_eq, pair_eq, min, length,
}
use agentcall.Base.Map.{lookup}
use agentcall.Relay.Lifecycle.{TeamCallPrincipal, begin_authorized_call}
use agentcall.Relay.Task.{PersistedTask, Envelope, ringing, submitted, DeliveryState}
use agentcall.Relay.Store.{Storage, submit, handle, first_ordered}
use agentcall.Relay.Audit.{Source, call_audit_intent}
use agentcall.Relay.Window.{
  Windows, read_live_rate_limit_stamps, record_rate_limit_hit, rate_limit_per_hour, maintenance_due,
}
use agentcall.Shared.Limits.{mailbox_ttl_ms, relay_call_timeout_ms}
use agentcall.Relay.Mailbox.{truthy, mailbox_tombstone_ttl_ms}
use agentcall.Relay.Mailbox.Admit.{
  admit_durable_task, DurableAdmission, admitted, existing, capacity, conflict,
  persist_task_with_audit, same_text,
}
use agentcall.Relay.Mailbox.Handler.{World, address}
use agentcall.Relay.Mailbox.Flush.{flush_audit_outbox, schedule_next_alarm}

-- `CallerAttachment`
pub record CallerAttachment : Type 0 where
  pub principal : TeamCallPrincipal
  pub from : String
  pub org : String
  pub to : String
  pub actor_ip : Option String
  pub actor_country : Option String
  pub relay_origin : String
  pub call_id : Option String
  pub timeout_ms : Option ℕ
  pub credential_generation : Option ℕ
  pub from_agent_id : String
  pub target_agent_id : String
  pub mailbox_enabled : Bool
  pub caller_blocked : Bool

-- `E2EECallerFrame`; `durable` is whether its `delivery_mode` is durable.
pub record CallerFrame : Type 0 where
  pub envelope : Envelope
  pub correlation_id : String
  pub durable : Bool
  pub message_id : String
  pub traceparent : Option String

pub data ErrorCode : Type 0 where
  protocol_error rate_limited message_too_large busy offline : ErrorCode

pub data CallerOutput : Type 0 where
  call_error : ErrorCode → CallerOutput
  call_queued : PersistedTask → CallerOutput
  call_ringing : String → CallerOutput
  incoming : String → Envelope → CallerOutput

-- What a caller's frame leaves: the mailbox, the windows, what is sent, and the call that the
-- socket then stands for.
pub record Received : Type 0 where
  pub storage : Storage
  pub windows : Windows
  pub outputs : List CallerOutput
  pub call_id : Option String

unfoldable pub clamp_timeout_ms : Option ℕ → ℕ
clamp_timeout_ms requested = min (get_or requested relay_call_timeout_ms) relay_call_timeout_ms

abbrev pub caller_source : CallerAttachment → Source
caller_source att = record { actor_ip = att.actor_ip; actor_country = att.actor_country }

-- The task of a live call, which has no part of a delivery.
unfoldable pub live_task : ℕ → String → CallerAttachment → CallerFrame → PersistedTask
live_task now call_id att frame = record {
  call_id = call_id;
  correlation_id = frame.correlation_id;
  from = att.from;
  org = att.org;
  to = att.to;
  deadline = now + clamp_timeout_ms att.timeout_ms;
  state = ringing;
  task_state = submitted;
  created_at = now;
  updated_at = now;
  principal =
      some (begin_authorized_call att.principal (now + clamp_timeout_ms att.timeout_ms)).principal;
  outcome_envelope = none;
  message_id = none;
  from_agent_id = none;
  from_credential_generation = none;
  target_agent_id = none;
  request_envelope = none;
  request_envelope_sha256 = none;
  delivery_state = none;
  traceparent = none;
  lease = none;
  execute_by = none;
  execution_deadline = none;
  purge_at = none;
  terminal_reason = none;
  ciphertext_bytes = none;
  quota_released = false;
}

abbrev pub execute_by_of : ℕ → CallerAttachment → ℕ
execute_by_of now att = now + min mailbox_ttl_ms (get_or att.timeout_ms mailbox_ttl_ms)

-- The task of a durable call; `digest` is the SHA-256 of the envelope's text.
unfoldable pub durable_task :
    (Envelope → ℕ)
    → (Envelope → String)
    → ℕ
    → String
    → CallerAttachment
    → CallerFrame
    → PersistedTask
durable_task byte_length digest now call_id att frame =
    let execute_by = execute_by_of now att in
    record (live_task now call_id att frame) {
      deadline = execute_by;
      principal = some (begin_authorized_call att.principal execute_by).principal;
      message_id = some frame.message_id;
      from_agent_id = some att.from_agent_id;
      from_credential_generation = some (get_or att.credential_generation 0);
      target_agent_id = some att.target_agent_id;
      request_envelope = some frame.envelope;
      request_envelope_sha256 = some (digest frame.envelope);
      ciphertext_bytes = some (byte_length frame.envelope);
      traceparent = frame.traceparent;
      delivery_state = some DeliveryState.queued;
      execute_by = some execute_by;
      purge_at = some (execute_by + mailbox_tombstone_ttl_ms);
    }

-- An envelope must name this relay, this caller and this callee.
unfoldable pub request_routed : CallerAttachment → Envelope → Bool
request_routed att e =
    not (att.relay_origin == "")
    && not (att.to == "")
    && e.relay_origin == att.relay_origin
    && e.from == address att.org att.from
    && e.to == address att.org att.to

abbrev pub refused : ErrorCode → Storage → Windows → Received
refused code s windows = record {
  storage = s;
  windows = windows;
  outputs = call_error code ∷ [];
  call_id = none;
}

-- What the caller hears of a call that the mailbox has seen before, before anything is written.
unfoldable pub recall :
    (Envelope → String) → CallerAttachment → CallerFrame → Storage → Option CallerOutput
recall digest att frame s =
    elim (if frame.durable then lookup (att.from_agent_id, frame.message_id) s.dedupe else none) [
      | none ↦ none
      | some found ↦
          if same_text found.request_envelope_sha256 (some (digest frame.envelope))
          then elim (lookup found.call_id s.calls) [
            | none ↦ some (call_error protocol_error)
            | some previous ↦ some (call_queued previous)
          ]
          else some (call_error protocol_error)
    ]

-- `admitDurableTask` flushes the outbox after an admission only.
unfoldable pub answer_admission :
    World
    → ℕ
    → CallerAttachment
    → List ℕ
    → PersistedTask
    → Windows
    → Storage × DurableAdmission
    → Received
answer_admission w now att stamps task windows (s, conflict) =
    record (refused protocol_error s windows) { call_id = some task.call_id }
answer_admission w now att stamps task windows (s, existing previous) = record {
  storage = s;
  windows = windows;
  outputs = call_queued previous ∷ [];
  call_id = some task.call_id;
}
answer_admission w now att stamps task windows (s, capacity) =
    record (refused busy s (record_rate_limit_hit att.from stamps now windows)) {
      call_id = some task.call_id;
    }
answer_admission w now att stamps task windows (s, admitted _) = record {
  storage =
      schedule_next_alarm now (maintenance_due (record_rate_limit_hit att.from stamps now windows))
        (flush_audit_outbox w.directory.database_accepts now (maintenance_due windows) s);
  windows = record_rate_limit_hit att.from stamps now windows;
  outputs = call_queued task ∷ [];
  call_id = some task.call_id;
}

unfoldable pub enqueue :
    World
    → (Envelope → String)
    → ℕ
    → String
    → CallerAttachment
    → CallerFrame
    → List ℕ
    → Windows
    → Storage
    → Received
enqueue w digest now fresh att frame stamps windows s =
    let task = durable_task w.byte_length digest now fresh att frame in
    answer_admission w now att stamps task windows (
      admit_durable_task now task
        (call_audit_intent submit task att.from handle (caller_source att) now) s)

unfoldable pub ring :
    World → ℕ → String → CallerAttachment → CallerFrame → List ℕ → Windows → Storage → Received
ring w now fresh att frame stamps windows s =
    let hit = record_rate_limit_hit att.from stamps now windows in
    let task = live_task now fresh att frame in
    let intent = call_audit_intent submit task att.from handle (caller_source att) now in
    record {
      storage = schedule_next_alarm now (maintenance_due hit) (
          flush_audit_outbox w.directory.database_accepts now (maintenance_due hit)
            (persist_task_with_audit now task intent s));
      windows = hit;
      outputs = call_ringing fresh ∷ incoming fresh frame.envelope ∷ [];
      call_id = some fresh;
    }

-- A durable call waits when there is no listener or others wait already; a live call rings, with
-- the listener or not at all. `listening` is whether a listener is connected.
unfoldable pub place :
    World
    → (Envelope → String)
    → ℕ
    → String
    → Bool
    → CallerAttachment
    → CallerFrame
    → List ℕ
    → Windows
    → Storage
    → Received
place w digest now fresh listening att frame stamps windows s =
    let backlog = frame.durable && is_some (first_ordered s.queue) in
    if not listening || backlog
    then if frame.durable && att.mailbox_enabled && not att.caller_blocked
      then enqueue w digest now fresh att frame stamps windows s
      else if not listening
      then refused offline s windows
      else ring w now fresh att frame stamps windows s
    else ring w now fresh att frame stamps windows s

-- A frame that is not oversized: `parsed` is what `safeParseFrame` finds in it.
unfoldable pub call_frame :
    World
    → (Envelope → String)
    → ℕ
    → String
    → Bool
    → CallerAttachment
    → Option CallerFrame
    → List ℕ
    → Windows
    → Storage
    → Received
call_frame w digest now fresh listening att none stamps windows s = refused protocol_error s windows
call_frame w digest now fresh listening att (some frame) stamps windows s =
    if not (request_routed att frame.envelope)
    then refused protocol_error s windows
    else elim (recall digest att frame s) [
      | some output ↦ record (refused protocol_error s windows) { outputs = output ∷ [] }
      | none ↦
          if leb rate_limit_per_hour (length stamps)
          then refused rate_limited s windows
          else place w digest now fresh listening att frame stamps windows s
    ]

unfoldable pub oversized_frame : ℕ → CallerAttachment → List ℕ → Windows → Storage → Received
oversized_frame now att stamps windows s =
    let hit = record_rate_limit_hit att.from stamps now windows in
    if leb rate_limit_per_hour (length stamps)
    then refused rate_limited s windows
    else refused message_too_large (schedule_next_alarm now (maintenance_due hit) s) hit

unfoldable pub caller_message :
    World
    → (Envelope → String)
    → ℕ
    → String
    → Bool
    → CallerAttachment
    → Bool
    → Option CallerFrame
    → Windows
    → Storage
    → Received
caller_message w digest now fresh listening att oversized parsed windows s =
    let stamps = read_live_rate_limit_stamps att.from now windows in
    if is_some (truthy att.call_id)
    then record (refused protocol_error s windows) { call_id = att.call_id }
    else if oversized
    then oversized_frame now att stamps windows s
    else call_frame w digest now fresh listening att parsed stamps windows s
