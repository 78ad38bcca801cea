-- ===== src/Relay/Mailbox.antt =====
-- apps/relay/src/do.ts: the mailbox of one handle. Each function is one storage transaction of
-- `HandleDO`, or the part of a handler between two waits on something other than the storage; the
-- reading of the clock is the argument `now`.
pub mod Admit
pub mod Settle
pub mod Flush
pub mod Dispatch
pub mod Frames
pub mod Handler
pub mod Caller
pub mod Quota
pub mod Resubmission
pub mod Revocation
pub mod Delivery
pub mod Termination
pub mod Limits
use agentcall.Base.{
  ℕ, ◌+◌, ◌-◌, ◌*◌, Bool, true, false, not, ◌||◌, Option, none, some, String, ◌==◌, if◌then◌else◌,
  get_or, List, string_eq, nat_eq, pair_eq,
}
use agentcall.Base.Map.{lookup, put, delete}
use agentcall.Relay.Task.{
  PersistedTask, TaskState, DeliveryState, TerminalReason, is_durable, ringing, answered, working,
  CallState,
}
use agentcall.Relay.Lifecycle.{TeamCallPrincipal, CallLifecycle, LiveCallPhase}
use agentcall.Relay.Store.{Storage, queue_key, due_key}

abbrev pub mailbox_tombstone_ttl_ms : ℕ
mailbox_tombstone_ttl_ms = 24 * 60 * 60_000

-- `DURABLE_PHASE`
abbrev pub durable_phase : CallState → LiveCallPhase
durable_phase ringing = LiveCallPhase.submitted
durable_phase answered = LiveCallPhase.accepted
durable_phase working = LiveCallPhase.working

abbrev pub principal_of : PersistedTask → TeamCallPrincipal
principal_of task =
    get_or task.principal
      (record { organization = task.org; participant = task.from; credential_generation = 0 })

unfoldable pub team_call_lifecycle : PersistedTask → CallLifecycle
team_call_lifecycle task = record {
  principal = principal_of task;
  phase = durable_phase task.state;
  deadline = task.deadline;
  terminal = none;
}

-- `if (s)` on an optional text: an empty one counts as absent.
abbrev pub truthy : Option String → Option String
truthy none = none
truthy (some s) = if s == "" then none else some s

abbrev pub lower_caller : Option String → List (String × ℕ) → List (String × ℕ)
lower_caller none counts = counts
lower_caller (some agent) counts = put agent (get_or (lookup agent counts) 0 - 1) counts

-- `Math.max(0, stored - previous + retained)` is the truncated difference.
unfoldable pub release_durable_quota :
    PersistedTask → PersistedTask → Storage → Storage × PersistedTask
release_durable_quota previous next s =
    if not (is_durable previous) || previous.quota_released then (s, next) else (
      record s {
        outstanding = s.outstanding - 1;
        caller_outstanding = lower_caller (truthy previous.from_agent_id) s.caller_outstanding;
        ciphertext_bytes =
            s.ciphertext_bytes
            + get_or next.ciphertext_bytes 0
            - get_or previous.ciphertext_bytes 0;
      },
      record next { quota_released = true },
    )

-- What every path that ends a durable call without an outcome writes.
unfoldable pub without_ciphertext :
    ℕ → TaskState → TerminalReason → ℕ → PersistedTask → PersistedTask
without_ciphertext deadline state reason now task = record task {
  request_envelope = none;
  lease = none;
  deadline = deadline;
  task_state = state;
  delivery_state = some DeliveryState.terminal;
  terminal_reason = some reason;
  ciphertext_bytes = some 0;
  updated_at = now;
}

-- `put(call, released)`, `delete(queueKey)`, `delete(dueKey)`, `put(dueKey)`, in that order.
unfoldable pub replace_terminal : String → PersistedTask → PersistedTask → Storage → Storage
unfolding release_durable_quota
replace_terminal call_id current next s =
    let r = release_durable_quota current next s in
    record (r.0) {
      calls = put call_id r.1 (r.0).calls;
      queue = delete (queue_key current) (r.0).queue;
      due = put (due_key next) call_id (delete (due_key current) (r.0).due);
    }

-- `if (active === callId) delete(ACTIVE_DURABLE_CALL_KEY)`
abbrev pub same_active : Option String → String → Bool
same_active none call_id = false
same_active (some active) call_id = active == call_id

unfoldable pub clear_active : String → Storage → Storage
clear_active call_id s = record s {
  active = if same_active s.active call_id then none else s.active;
}
