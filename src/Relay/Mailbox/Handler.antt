-- ===== src/Relay/Mailbox/Handler.antt =====
-- apps/relay/src/do.ts: whole handlers: `webSocketMessage` for a listener
-- and `alarm`.
use agentcall.Base.{
  ℕ, Bool, true, false, not, ◌&&◌, ◌||◌, Option, none, some, String, List, [], ◌∷◌, ◌++◌, ◌==◌,
  if◌then◌else◌, ltb, is_some, string_eq, nat_eq, pair_eq, take,
}
use agentcall.Base.Map.{lookup, delete}
use agentcall.Relay.Task.{
  PersistedTask, Envelope, CallState, answered, working, task_is_terminal, is_durable,
}
use agentcall.Relay.Store.{Storage, Index, CallAuditIntent, cancel, fail, handle, list_ordered}
use agentcall.Relay.Audit.{call_audit_intent}
use agentcall.Relay.Mailbox.{truthy}
use agentcall.Relay.Mailbox.Admit.{persist_task_with_audit}
use agentcall.Relay.Mailbox.Settle.{recover_expired_lease, expire_task}
use agentcall.Relay.Window.{Windows, continue_rate_limit_maintenance, maintenance_due}
use agentcall.Relay.Mailbox.Flush.{call_audit_drain_limit, flush_audit_outbox, schedule_next_alarm}
use agentcall.Relay.Mailbox.Dispatch.{
  Directory, IncomingCall, ListenerAttachment, dispatch_next, finish_durable_task,
}
use agentcall.Relay.Mailbox.Frames.{
  ListenerFrame, ListenerMessage, call_accepted, call_started, call_cancelled, call_not_cancelled,
  call_rejected, call_outcome, Output, call_error_canceled, call_error_protocol, call_error_timeout,
  outcome_forwarded, delivered, cancellation_settled, source_of, valid_durable_lease, advance_call,
  accepted_intent, next_task, unmoved, cancelled_task, rejected_task, finished_task, outcome_event,
}
use Prim.Native.String.{◌++◌ as ◌<>◌}

-- What a handler depends on beside the storage: the database, a fresh lease id and the length of an
-- envelope's text.
pub record World : Type 0 where
  pub directory : Directory
  pub fresh_lease : String
  pub byte_length : Envelope → ℕ

abbrev pub outputs_of : Option IncomingCall → List Output
outputs_of none = []
outputs_of (some call) = delivered call ∷ []

unfoldable pub finish_and_dispatch :
    World → ℕ → ListenerAttachment → PersistedTask → Storage → Storage × List Output
finish_and_dispatch w now listener task s =
    let r = dispatch_next w.directory now w.fresh_lease listener (finish_durable_task task s) in
    if is_durable task then (r.0, outputs_of r.1) else (s, [])

-- `persistTaskWithAudit` with its flush, then `finishDurableTask`.
unfoldable pub end_call :
    World
    → ℕ
    → ListenerAttachment
    → PersistedTask
    → Option CallAuditIntent
    → Storage
    → Storage × List Output
end_call w now listener task intent s = finish_and_dispatch w now listener task (
    flush_audit_outbox w.directory.database_accepts now w.directory.maintenance
      (persist_task_with_audit now task intent s))

-- `advanceCall`: only the write of an audit intent is followed by a flush.
unfoldable pub advance :
    World → ℕ → ListenerAttachment → CallState → PersistedTask → Storage → Storage × List Output
advance w now l state task s =
    let r = advance_call state l now task s in
    if is_some (accepted_intent state l now task (next_task state l now task))
      && not (unmoved state task)
    then (flush_audit_outbox w.directory.database_accepts now w.directory.maintenance r.0, r.1)
    else r

abbrev pub address : String → String → String
address org name = "@" <> org <> "/" <> name

-- An outcome must come from this listener's address, through its relay, to the caller.
unfoldable pub outcome_routed : ListenerAttachment → Envelope → PersistedTask → Bool
outcome_routed l e task =
    elim (truthy l.relay_origin) [ none ↦ false | some origin ↦ e.relay_origin == origin ]
    && elim (truthy l.org) [
      | none ↦ false
      | some org ↦
          e.to == address org task.from
          && elim (truthy l.handle) [ none ↦ false | some h ↦ e.from == address org h ]
    ]

unfoldable pub listener_frame :
    World
    → ℕ
    → ListenerAttachment
    → String
    → PersistedTask
    → ListenerFrame
    → Storage
    → Storage × List Output
listener_frame w now l id task call_accepted s = advance w now l answered task s
listener_frame w now l id task call_started s = advance w now l working task s
listener_frame w now l id task call_cancelled s =
    let ended = cancelled_task now task in
    let intent = call_audit_intent cancel ended task.to handle (source_of l) now in
    let r = end_call w now l ended intent s in
    (r.0, r.1 ++ (call_error_canceled id ∷ cancellation_settled id true ∷ []))
listener_frame w now l id task call_not_cancelled s = (s, cancellation_settled id false ∷ [])
listener_frame w now l id task call_rejected s =
    let ended = rejected_task now task in
    let intent = call_audit_intent fail ended task.to handle (source_of l) now in
    let r = end_call w now l ended intent s in
    (r.0, call_error_protocol id ∷ cancellation_settled id false ∷ r.1)
listener_frame w now l id task (call_outcome terminal reason envelope) s =
    let ended = finished_task w.byte_length terminal reason envelope now task in
    let intent =
      call_audit_intent (outcome_event terminal) ended task.to handle (source_of l) now in
    let r = end_call w now l ended intent s in
    if outcome_routed l envelope task
    then (r.0, r.1 ++ (outcome_forwarded id envelope ∷ cancellation_settled id false ∷ []))
    else (s, [])

-- The frame has been parsed and is not oversized. The outputs to a caller reach it if its socket
-- is open.
unfoldable pub listener_message :
    World → ℕ → ListenerAttachment → ListenerMessage → Storage → Storage × List Output
listener_message w now l message s = elim (lookup message.call_id s.calls) [
  | none ↦ (s, [])
  | some task ↦
      if task_is_terminal task || not (valid_durable_lease task message.lease_id l)
      then (s, [])
      else listener_frame w now l message.call_id task message.frame s
]

-- The loop over the due calls, oldest first, up to the first that is not due yet.
unfoldable pub expire_due : ℕ → List (Index × String) → Storage → Storage × List PersistedTask
expire_due now [] s = (s, [])
expire_due now (((at, i), call_id) ∷ due) s =
    let r = expire_task call_id now s in
    let next : Storage = elim r.1 [
      | none ↦ record (r.0) { due = delete (at, i) (r.0).due }
      | some _ ↦ r.0
    ] in
    let rest = expire_due now due next in
    if ltb now at then (s, []) else (
      rest.0,
      elim r.1 [ none ↦ rest.1 | some e ↦ if e.timed_out then e.task ∷ rest.1 else rest.1 ],
    )

unfoldable pub time_outs : List PersistedTask → List Output
time_outs [] = []
time_outs (task ∷ tasks) =
    call_error_timeout task.call_id ∷ cancellation_settled task.call_id false ∷ time_outs tasks

-- The storage has no alarm while its handler runs.
unfoldable pub recover_active : ℕ → Storage → Storage
recover_active now s = elim (truthy s.active) [
  | none ↦ record s { alarm = none }
  | some id ↦ recover_expired_lease id now (record s { alarm = none })
]

unfoldable pub expire_batch : ℕ → Storage → Storage × List PersistedTask
expire_batch now s = expire_due now (take call_audit_drain_limit (list_ordered s.due)) s

-- `listener` is the connected one, if any.
unfoldable pub dispatch_to :
    World → ℕ → Option ListenerAttachment → Storage → Storage × Option IncomingCall
dispatch_to w now none s = (s, none)
dispatch_to w now (some l) s = dispatch_next w.directory now w.fresh_lease l s

-- What a later `scheduleNextAlarm` reads of the sweep.
abbrev pub after_sweep : World → Windows → World
after_sweep w windows = record w {
  directory = record (w.directory) { maintenance = maintenance_due windows };
}

unfoldable pub alarm :
    World → ℕ → Option ListenerAttachment → Windows → Storage → Storage × List Output × Windows
alarm w now listener windows s =
    let expired = expire_batch now (recover_active now s) in
    let drained =
      flush_audit_outbox w.directory.database_accepts now (maintenance_due windows) expired.0 in
    let swept = continue_rate_limit_maintenance now windows in
    let dispatched = dispatch_to (after_sweep w swept) now listener drained in
    (
      schedule_next_alarm now (maintenance_due swept) dispatched.0,
      time_outs expired.1 ++ outputs_of dispatched.1,
      swept,
    )
