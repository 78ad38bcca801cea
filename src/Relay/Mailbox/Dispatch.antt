-- ===== src/Relay/Mailbox/Dispatch.antt =====
-- apps/relay/src/do.ts: `dispatchNext`, `durableAuthorityIsCurrent` and `finishDurableTask`.
use agentcall.Base.{
  ℕ, zero, suc, ◌+◌, ◌*◌, Bool, false, not, ◌&&◌, ◌||◌, Option, none, some, String, List, [], ◌∷◌,
  ◌==◌, if◌then◌else◌, get_or, leb, ltb, is_some, string_eq, nat_eq, pair_eq, keep, any, length,
  min,
}
use agentcall.Base.Map.{lookup, put, delete}
use agentcall.Relay.Task.{
  PersistedTask, Envelope, Lease, DeliveryState, task_is_terminal, is_durable, is_queued,
  is_started,
}
use agentcall.Relay.Store.{Storage, Index, queue_key, first_ordered}
use agentcall.Relay.Audit.{earlier_alarm}
use agentcall.Relay.Mailbox.{truthy, clear_active}
use agentcall.Shared.Limits.{relay_call_timeout_ms}
use agentcall.Relay.Mailbox.Settle.{revoke_durable_task}
use agentcall.Relay.Mailbox.Flush.{flush_waiting}

abbrev pub delivery_lease_ms : ℕ
delivery_lease_ms = 30_000

abbrev pub start_window_ms : ℕ
start_window_ms = 24 * 60 * 60_000

abbrev pub mailbox_max_starts_per_day : ℕ
mailbox_max_starts_per_day = 30

-- `ListenerAttachment`
pub record ListenerAttachment : Type 0 where
  pub org : Option String
  pub handle : Option String
  pub actor_ip : Option String
  pub actor_country : Option String
  pub relay_origin : Option String
  pub mailbox_capable : Bool
  pub listener_session_id : Option String
  pub lease_ms : Option ℕ
  pub execution_timeout_ms : Option ℕ

-- The frame `incoming_call` of a durable delivery.
pub record IncomingCall : Type 0 where
  pub call_id : String
  pub from : String
  pub envelope : Envelope
  pub message_id : String
  pub lease_id : String
  pub execute_by : ℕ
  pub correlation_id : String
  pub traceparent : Option String

-- The rows of the database that `durableAuthorityIsCurrent` reads, by organization and by handle
-- or agent; a card is there only when `parseStoredCard` can read it.
pub record HandleRow : Type 0 where
  pub agent_id : Option String
  pub recovery_generation : ℕ

pub record Card : Type 0 where
  pub offline_delivery : Bool
  pub blocked : List String

pub record Directory : Type 0 where
  pub handles : String → String → Option HandleRow
  pub cards : String → String → Option Card
  -- whether it takes a batch of audit events, and when the sweep of the rate limits goes on
  pub database_accepts : Bool
  pub maintenance : Option ℕ
  -- what the mailbox handles of other events while it waits for an answer
  pub meanwhile : Storage → Storage

abbrev pub is_text : Option String → String → Bool
is_text none s = false
is_text (some t) s = t == s

abbrev pub is_number : Option ℕ → ℕ → Bool
is_number none n = false
is_number (some m) n = m == n

abbrev pub caller_is_current : PersistedTask → String → Option HandleRow → Bool
caller_is_current task agent none = false
caller_is_current task agent (some row) =
    is_text row.agent_id agent && is_number task.from_credential_generation row.recovery_generation

abbrev pub target_is_current : String → Option HandleRow → Bool
target_is_current agent none = false
target_is_current agent (some row) = is_text row.agent_id agent

abbrev pub card_admits : String → Option Card → Bool
card_admits caller none = false
card_admits caller (some card) = card.offline_delivery && not (any (λ b. b == caller) card.blocked)

unfoldable pub authority_of : Directory → PersistedTask → Option String → Option String → Bool
authority_of d task (some from_agent) (some target_agent) =
    caller_is_current task from_agent (d.handles task.org task.from)
    && target_is_current target_agent (d.handles task.org task.to)
    && card_admits task.from (d.cards task.org target_agent)
authority_of d task _ _ = false

unfoldable pub durable_authority_is_current : Directory → PersistedTask → Bool
unfolding authority_of
durable_authority_is_current d task =
    authority_of d task (truthy task.from_agent_id) (truthy task.target_agent_id)

abbrev pub nonzero : Option ℕ → Option ℕ
nonzero none = none
nonzero (some n) = if n == 0 then none else some n

-- The frame is sent only when the task carries all that the frame needs.
unfoldable pub incoming_of :
    PersistedTask → Option Envelope → Option String → Option Lease → Option ℕ → Option IncomingCall
incoming_of task (some envelope) (some message) (some lease) (some execute_by) = some (record {
  call_id = task.call_id;
  from = task.from;
  envelope = envelope;
  message_id = message;
  lease_id = lease.lease_id;
  execute_by = execute_by;
  correlation_id = task.correlation_id;
  traceparent = task.traceparent;
})
incoming_of task _ _ _ _ = none

unfoldable pub incoming_call : PersistedTask → Option IncomingCall
unfolding incoming_of
incoming_call task =
    incoming_of task task.request_envelope (truthy task.message_id) task.lease
      (nonzero task.execute_by)

-- The active call, when it was started under a listener that is gone: a new lease for this one.
unfoldable pub rebound_task : ℕ → String → String → PersistedTask → PersistedTask
rebound_task now fresh session active = record active {
  lease = some (record {
    lease_id = fresh;
    listener_session_id = session;
    expires_at = active.deadline;
    attempt = elim active.lease [ none ↦ 1 | some l ↦ l.attempt ];
  });
  updated_at = now;
}

abbrev pub can_rebind : PersistedTask → Bool
can_rebind active =
    is_started active
    && is_some active.request_envelope
    && is_some (truthy active.message_id)
    && is_some (nonzero active.execute_by)
    && not (task_is_terminal active)

unfoldable pub rebind_active :
    ℕ → String → String → String → Storage → Storage × Option IncomingCall
rebind_active now fresh session active_id s = elim (lookup active_id s.calls) [
  | none ↦ (s, none)
  | some active ↦
      if can_rebind active
      then (
        record s { calls = put active_id (rebound_task now fresh session active) s.calls },
        incoming_call (rebound_task now fresh session active),
      )
      else (s, none)
]

unfoldable pub leased_task : ℕ → String → String → ℕ → PersistedTask → PersistedTask
leased_task now fresh session lease_ms task = record task {
  delivery_state = some DeliveryState.leased;
  lease = some (record {
    lease_id = fresh;
    listener_session_id = session;
    expires_at = now + lease_ms;
    attempt = elim task.lease [ none ↦ 0 | some l ↦ l.attempt ] + 1;
  });
  updated_at = now;
}

-- The head of the queue, as the transaction finds it.
unfoldable pub lease_head :
    ℕ → String → String → ℕ → Index → String → Storage → Storage × Option IncomingCall
lease_head now fresh session lease_ms key call_id s = elim (lookup call_id s.calls) [
  | none ↦ (record s { queue = delete key s.queue }, none)
  | some task ↦
      if task_is_terminal task || not (is_queued task)
      then (record s { queue = delete key s.queue }, none)
      else (
        record s {
          calls = put call_id (leased_task now fresh session lease_ms task) s.calls;
          active = some call_id;
          alarm = earlier_alarm s.alarm (now + lease_ms);
        },
        incoming_call (leased_task now fresh session lease_ms task),
      )
]

-- The transaction of `dispatchNext`.
unfoldable pub lease_next : ℕ → String → String → ℕ → Storage → Storage × Option IncomingCall
lease_next now fresh session lease_ms s = elim (truthy s.active) [
  | some _ ↦ (s, none)
  | none ↦ elim (first_ordered s.queue) [
    | none ↦ (s, none)
    | some (key, call_id) ↦ lease_head now fresh session lease_ms key call_id s
  ]
]

abbrev pub is_live_start : ℕ → Index × ℕ → Bool
is_live_start now ((at, _), _) = ltb now (at + start_window_ms)

unfoldable pub oldest_start : ℕ → List (Index × ℕ) → ℕ
oldest_start at [] = at
oldest_start at (((other, _), _) ∷ starts) = oldest_start (min at other) starts

abbrev pub release_at : List (Index × ℕ) → Option ℕ
release_at [] = none
release_at (((at, _), _) ∷ starts) = some (oldest_start at starts + start_window_ms)

abbrev pub arm_release : Option ℕ → Option ℕ → Option ℕ
arm_release alarm none = alarm
arm_release alarm (some at) = earlier_alarm alarm at

-- What `dispatchNext` finds before its transaction.
pub data Readiness : Type 0 where
  ready capped too_late : Readiness
  unauthorized : PersistedTask → Readiness

abbrev pub is_capped : List (Index × ℕ) → Bool
is_capped live = leb mailbox_max_starts_per_day (length live)

unfoldable pub readiness : Directory → ℕ → PersistedTask → List (Index × ℕ) → Readiness
readiness d now candidate live =
    if is_capped live
    then capped
    else if not (durable_authority_is_current d candidate)
    then unauthorized candidate
    else if ltb (get_or candidate.execute_by 0) (now + relay_call_timeout_ms)
    then too_late
    else ready

-- The authority is read from the database, and other events are handled while it answers.
unfoldable pub check_candidate : Directory → ℕ → PersistedTask → Storage → Storage × Readiness
unfolding oldest_start
check_candidate d now candidate s =
    let live = keep (is_live_start now) s.starts in
    (
      if is_capped live
          then record s { starts = live; alarm = arm_release s.alarm (release_at live) }
          else d.meanwhile (record s { starts = live }),
      readiness d now candidate live,
    )

unfoldable pub check_head : Directory → ℕ → Storage → Storage × Readiness
check_head d now s = elim (first_ordered s.queue) [
  | none ↦ (s, ready)
  | some (_, call_id) ↦ elim (lookup call_id s.calls) [
    | none ↦ (s, ready)
    | some candidate ↦
        if is_queued candidate && not (task_is_terminal candidate)
        then check_candidate d now candidate s
        else (s, ready)
  ]
]

-- `revokeDurableTask` with its flush.
unfoldable pub revoke_and_flush : Directory → ℕ → PersistedTask → Storage → Storage
revoke_and_flush d now candidate s =
    flush_waiting d.meanwhile d.database_accepts now d.maintenance
      (revoke_durable_task now candidate s)

-- The fuel bounds the revocations in a row. The transaction leases what it finds at the head after
-- the wait, which need not be the call that was checked.
unfoldable pub dispatch_queue :
    ℕ → Directory → ℕ → String → String → ℕ → Storage → Storage × Option IncomingCall
dispatch_queue zero d now fresh session lease_ms s = (s, none)
dispatch_queue (suc fuel) d now fresh session lease_ms s = elim (truthy s.active) [
  | some active_id ↦ rebind_active now fresh session active_id s
  | none ↦
      let (checked, readiness) = check_head d now s in
      elim readiness [
        | ready ↦ lease_next now fresh session lease_ms checked
        | capped ↦ (checked, none)
        | too_late ↦ (checked, none)
        | unauthorized candidate ↦
            dispatch_queue fuel d now fresh session lease_ms
              (revoke_and_flush d now candidate checked)
      ]
]

unfoldable pub dispatch_next :
    Directory → ℕ → String → ListenerAttachment → Storage → Storage × Option IncomingCall
dispatch_next d now fresh attachment s =
    elim (if attachment.mailbox_capable then truthy attachment.listener_session_id else none) [
      | none ↦ (s, none)
      | some session ↦
          dispatch_queue (length s.calls + 1) d now fresh session
            (get_or attachment.lease_ms delivery_lease_ms) s
    ]

-- `finishDurableTask`, before it dispatches
unfoldable pub finish_durable_task : PersistedTask → Storage → Storage
unfolding clear_active
finish_durable_task task s =
    if is_durable task
    then clear_active task.call_id (record s { queue = delete (queue_key task) s.queue })
    else s
