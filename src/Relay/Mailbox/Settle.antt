-- ===== src/Relay/Mailbox/Settle.antt =====
-- apps/relay/src/do.ts: the transactions that end a durable call without its listener: of
-- `cancelTask`, `revokeDurableTask`, `recoverExpiredLease` and `expireTask`.
use agentcall.Base.{
  ℕ, ◌+◌, ◌-◌, Bool, true, false, not, ◌&&◌, ◌||◌, Option, none, some, String, if◌then◌else◌,
  get_or, List, ltb, is_some, string_eq, nat_eq, pair_eq,
}
use agentcall.Base.Map.{lookup, put, delete}
use agentcall.Relay.Task.{
  PersistedTask, Lease, TaskState, DeliveryState, TerminalReason, task_is_terminal, is_durable,
  is_queued, is_leased, is_started,
}
use agentcall.Relay.Lifecycle.{
  CallTerminalReason, terminate_authorized_call, expire_authorized_call,
}
use agentcall.Relay.Store.{
  Storage, DedupeRecord, queue_key, due_key, cancel, fail, timeout, handle, system,
}
use agentcall.Relay.Audit.{call_audit_intent, record_intent, no_source}
use agentcall.Relay.Mailbox.{
  truthy, team_call_lifecycle, without_ciphertext, replace_terminal, clear_active,
  mailbox_tombstone_ttl_ms,
}

-- What the transaction of `cancelTask` leaves its caller with: the ended task, the task as it now
-- is, or the task as it was read before.
pub data Cancellation : Type 0 where
  ended changed : PersistedTask → Cancellation
  unchanged : Cancellation

unfoldable pub canceled_task : ℕ → PersistedTask → PersistedTask
canceled_task now current =
    let ended =
      without_ciphertext (get_or current.purge_at current.deadline) TaskState.canceled
        TerminalReason.canceled now current in
    record ended {
      principal =
          some
            (terminate_authorized_call (team_call_lifecycle current)
              CallTerminalReason.canceled).principal;
    }

unfoldable pub cancel_undelivered : ℕ → String → Storage → Storage × Cancellation
unfolding canceled_task without_ciphertext replace_terminal clear_active
cancel_undelivered now call_id s = elim (lookup call_id s.calls) [
  | none ↦ (s, unchanged)
  | some current ↦
      if task_is_terminal current
      then (s, unchanged)
      else if is_queued current || is_leased current
      then (
        record_intent now
            (call_audit_intent cancel (canceled_task now current) current.from handle no_source now)
            (clear_active call_id (replace_terminal call_id current (canceled_task now current) s)),
        ended (canceled_task now current),
      )
      else (s, changed current)
]

unfoldable pub revoked_task : ℕ → PersistedTask → PersistedTask
revoked_task now task =
    without_ciphertext (get_or task.purge_at task.deadline) TaskState.rejected
      TerminalReason.revoked now task

-- `task` is what the dispatcher read before it asked the database; the transaction reads again.
unfoldable pub revoke_durable_task : ℕ → PersistedTask → Storage → Storage
unfolding revoked_task without_ciphertext replace_terminal
revoke_durable_task now task s = elim (lookup task.call_id s.calls) [
  | none ↦ s
  | some current ↦
      if task_is_terminal current || not (is_queued current)
      then s
      else record_intent now
          (call_audit_intent fail (revoked_task now task) "relay" system no_source now)
          (replace_terminal task.call_id current (revoked_task now task) s)
]

unfoldable pub undeliverable_task : ℕ → PersistedTask → PersistedTask
undeliverable_task now current =
    without_ciphertext (get_or current.purge_at current.deadline) TaskState.failed
      TerminalReason.delivery_failed now current

-- The rest of that transaction, for a lease that is over: twice the call goes back to the queue.
unfoldable pub release_lease : String → ℕ → PersistedTask → Lease → Storage → Storage
unfolding undeliverable_task without_ciphertext replace_terminal clear_active
release_lease call_id now current lease s =
    let freed = clear_active call_id s in
    if ltb lease.attempt 3
    then record freed {
      calls =
          put call_id
            (record current { delivery_state = some DeliveryState.queued; updated_at = now })
            freed.calls;
    }
    else record_intent now
        (call_audit_intent fail (undeliverable_task now current) "relay" system no_source now)
        (replace_terminal call_id current (undeliverable_task now current) freed)

unfoldable pub recover_expired_lease : String → ℕ → Storage → Storage
unfolding release_lease
recover_expired_lease call_id now s = elim (lookup call_id s.calls) [
  | none ↦ s
  | some current ↦ elim current.lease [
    | none ↦ s
    | some lease ↦
        if not (is_leased current) || ltb now lease.expires_at || task_is_terminal current
        then s
        else release_lease call_id now current lease s
  ]
]

pub record Expired : Type 0 where
  pub task : PersistedTask
  pub timed_out : Bool

-- The outcome's ciphertext goes at the first deadline of an ended call, the record at the second.
abbrev pub retained_task : ℕ → PersistedTask → PersistedTask
retained_task purge_at current =
    if is_some current.outcome_envelope
    then record current { deadline = purge_at; outcome_envelope = none; ciphertext_bytes = some 0 }
    else record current { deadline = purge_at }

unfoldable pub retain_ended : String → ℕ → PersistedTask → Storage → Storage
retain_ended call_id purge_at current s =
    let retained = retained_task purge_at current in
    record s {
      ciphertext_bytes =
          if is_some current.outcome_envelope
          then s.ciphertext_bytes - get_or current.ciphertext_bytes 0
          else s.ciphertext_bytes;
      calls = put call_id retained s.calls;
      due = put (due_key retained) call_id (delete (due_key current) s.due);
    }

abbrev pub delete_dedupe :
    Option String
    → Option String
    → List ((String × String) × DedupeRecord)
    → List ((String × String) × DedupeRecord)
delete_dedupe (some agent) (some message) records = delete (agent, message) records
delete_dedupe _ _ records = records

unfoldable pub purge_ended : String → PersistedTask → Storage → Storage
unfolding clear_active
purge_ended call_id current s = clear_active call_id (record s {
  calls = delete call_id s.calls;
  queue = delete (queue_key current) s.queue;
  due = delete (due_key current) s.due;
  dedupe = delete_dedupe (truthy current.from_agent_id) (truthy current.message_id) s.dedupe;
  ciphertext_bytes =
      if current.quota_released && ltb 0 (get_or current.ciphertext_bytes 0)
      then s.ciphertext_bytes - get_or current.ciphertext_bytes 0
      else s.ciphertext_bytes;
})

unfoldable pub timed_out_task : ℕ → PersistedTask → PersistedTask
timed_out_task now current =
    without_ciphertext (get_or current.purge_at (now + mailbox_tombstone_ttl_ms)) TaskState.failed
      (if is_started current then TerminalReason.failed else TerminalReason.expired) now current

-- `current.purge_at && current.purge_at > now`
abbrev pub purge_later : ℕ → Option ℕ → Option ℕ
purge_later now none = none
purge_later now (some at) = if ltb now at then some at else none

unfoldable pub expire_ended : String → ℕ → PersistedTask → Storage → Storage
unfolding retain_ended purge_ended
expire_ended call_id now current s = elim (purge_later now current.purge_at) [
  | some purge_at ↦ retain_ended call_id purge_at current s
  | none ↦ purge_ended call_id current s
]

unfoldable pub expire_durable : String → ℕ → PersistedTask → Storage → Storage
unfolding timed_out_task without_ciphertext replace_terminal clear_active
expire_durable call_id now current s =
    record_intent now
      (call_audit_intent timeout (timed_out_task now current) "relay" system no_source now)
      (clear_active call_id (replace_terminal call_id current (timed_out_task now current) s))

unfoldable pub expire_live : String → ℕ → PersistedTask → Storage → Storage
expire_live call_id now current s =
    let gone = record s { calls = delete call_id s.calls; due = delete (due_key current) s.due } in
    if task_is_terminal current
    then gone
    else record_intent now (call_audit_intent timeout current "relay" system no_source now) gone

unfoldable pub expire_task : String → ℕ → Storage → Storage × Option Expired
expire_task call_id now s = elim (lookup call_id s.calls) [
  | none ↦ (s, none)
  | some current ↦
      if is_durable current
      then if ltb now current.deadline
        then (s, none)
        else if task_is_terminal current
        then (
          expire_ended call_id now current s,
          some (record { task = current; timed_out = false }),
        )
        else (
          expire_durable call_id now current s,
          some (record { task = timed_out_task now current; timed_out = true }),
        )
      else elim (expire_authorized_call (team_call_lifecycle current) now) [
        | none ↦ (s, none)
        | some _ ↦ (
          expire_live call_id now current s,
          some (record { task = current; timed_out = not (task_is_terminal current) }),
        )
      ]
]
