-- ===== src/Relay/Audit.antt =====
-- apps/relay/src/do.ts: the audit intents of a call and their outbox, which the storage
-- transaction that changes the call writes too.
use agentcall.Base.{
  ℕ, ◌+◌, ◌||◌, Option, none, some, String, ◌==◌, if◌then◌else◌, ltb, string_eq, nat_eq, pair_eq,
}
use agentcall.Base.Map.{put}
use agentcall.Relay.Task.{PersistedTask, TerminalReason, completed, failed, canceled, expired}
use agentcall.Relay.Task.{delivery_failed, revoked, indeterminate_execution}
use agentcall.Relay.Store.{
  Storage, CallAuditEvent, submit, accept, complete, fail, cancel, timeout, CallAuditIntent,
  ActorType, Action, create, update, Index,
}
use Prim.Native.String.{◌++◌ as ◌<>◌}

-- The request metadata that an attachment carries.
pub record Source : Type 0 where
  pub actor_ip : Option String
  pub actor_country : Option String

abbrev pub no_source : Source
no_source = record { actor_ip = none; actor_country = none }

abbrev pub event_name : CallAuditEvent → String
event_name submit = "call.submit"
event_name accept = "call.accept"
event_name complete = "call.complete"
event_name fail = "call.fail"
event_name cancel = "call.cancel"
event_name timeout = "call.timeout"

-- `CALL_AUDIT_RANK`
abbrev pub call_audit_rank : CallAuditEvent → String
call_audit_rank submit = "0"
call_audit_rank accept = "1"
call_audit_rank _ = "2"

abbrev pub reason_name : TerminalReason → String
reason_name completed = "completed"
reason_name failed = "failed"
reason_name canceled = "canceled"
reason_name expired = "expired"
reason_name delivery_failed = "delivery_failed"
reason_name revoked = "revoked"
reason_name indeterminate_execution = "indeterminate_execution"

unfoldable pub describe : CallAuditEvent → PersistedTask → String
describe submit t = t.from <> " submitted call " <> t.call_id <> " to " <> t.to
describe accept t = t.to <> " accepted call " <> t.call_id <> " from " <> t.from
describe complete t = t.to <> " completed call " <> t.call_id <> " from " <> t.from
describe fail t = t.to <> " failed call " <> t.call_id <> " from " <> t.from
describe cancel t = t.to <> " confirmed cancellation of call " <> t.call_id <> " from " <> t.from
describe timeout t = "The relay expired call " <> t.call_id <> " from " <> t.from <> " to " <> t.to

unfoldable pub reason_suffix : Option TerminalReason → String
reason_suffix none = ""
reason_suffix (some r) = " (reason: " <> reason_name r <> ")"

abbrev pub action_of : CallAuditEvent → Action
action_of submit = create
action_of _ = update

unfoldable pub call_audit_intent :
    CallAuditEvent → PersistedTask → String → ActorType → Source → ℕ → Option CallAuditIntent
unfolding describe reason_suffix
call_audit_intent event task actor actor_type source at =
    if task.org == "" || task.to == ""
    then none
    else some (record {
      event_key = task.org <> ":" <> task.call_id <> ":" <> event_name event;
      event = event;
      action = action_of event;
      org = task.org;
      actor = actor;
      actor_type = actor_type;
      target_id = task.call_id;
      actor_ip = source.actor_ip;
      actor_country = source.actor_country;
      description = describe event task <> reason_suffix task.terminal_reason;
      at = at;
    })

-- `auditOutboxKey`, below its prefix
unfoldable pub audit_outbox_key : CallAuditIntent → Index
audit_outbox_key intent = (intent.at, call_audit_rank intent.event <> ":" <> intent.event_key)

abbrev pub call_audit_retry_ms : ℕ
call_audit_retry_ms = 1_000

-- `if (current === null || current > at) setAlarm(at)`
abbrev pub earlier_alarm : Option ℕ → ℕ → Option ℕ
earlier_alarm none at = some at
earlier_alarm (some current) at = if ltb at current then some at else some current

unfoldable pub arm_audit_retry : ℕ → Storage → Storage
arm_audit_retry now s = record s { alarm = earlier_alarm s.alarm (now + call_audit_retry_ms) }

-- `if (intent) { txn.put(auditOutboxKey(intent), intent); armAuditRetry(txn) }`
unfoldable pub record_intent : ℕ → Option CallAuditIntent → Storage → Storage
unfolding arm_audit_retry
record_intent now none s = s
record_intent now (some intent) s =
    arm_audit_retry now (record s { outbox = put (audit_outbox_key intent) intent s.outbox })
