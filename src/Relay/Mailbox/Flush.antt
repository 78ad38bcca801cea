-- ===== src/Relay/Mailbox/Flush.antt =====
-- apps/relay/src/do.ts: `flushAuditOutbox` and `scheduleNextAlarm`.
use agentcall.Base.{
  ℕ, ◌+◌, Bool, Option, none, some, List, [], ◌∷◌, if◌then◌else◌, is_some, string_eq, nat_eq,
  pair_eq, min, take,
}
use agentcall.Base.Map.{lookup, delete}
use agentcall.Relay.Task.{PersistedTask}
use agentcall.Relay.Store.{Storage, Index, CallAuditIntent, list_ordered, first_ordered}
use agentcall.Relay.Audit.{call_audit_retry_ms}
use agentcall.Relay.Mailbox.{truthy}

abbrev pub call_audit_drain_limit : ℕ
call_audit_drain_limit = 24

abbrev pub first_time : {V : Type 0} → Option (Index × V) → Option ℕ
first_time none = none
first_time (some ((at, _), _)) = some at

abbrev pub earliest : Option ℕ → Option ℕ → Option ℕ
earliest none b = b
earliest (some a) none = some a
earliest (some a) (some b) = some (min a b)

abbrev pub lease_expiry : Option PersistedTask → Option ℕ
lease_expiry none = none
lease_expiry (some task) = elim task.lease [ none ↦ none | some l ↦ some l.expires_at ]

abbrev pub active_expiry : Storage → Option ℕ
active_expiry s = elim (truthy s.active) [
  | none ↦ none
  | some id ↦ lease_expiry (lookup id s.calls)
]

-- `maintenance` is when the sweep of the rate-limit keys goes on, if it is not over.
unfoldable pub next_alarm : ℕ → Option ℕ → Storage → Option ℕ
next_alarm now maintenance s = earliest (first_time (first_ordered s.due)) (
    earliest (active_expiry s) (
      earliest (if is_some (first_ordered s.outbox) then some (now + call_audit_retry_ms) else none)
        maintenance))

-- `if (min !== Infinity) setAlarm(min)`
unfoldable pub schedule_next_alarm : ℕ → Option ℕ → Storage → Storage
schedule_next_alarm now maintenance s = elim (next_alarm now maintenance s) [
  | none ↦ s
  | some at ↦ record s { alarm = some at }
]

unfoldable pub delete_all :
    List (Index × CallAuditIntent) → List (Index × CallAuditIntent) → List (Index × CallAuditIntent)
delete_all [] outbox = outbox
delete_all ((key, _) ∷ pending) outbox = delete_all pending (delete key outbox)

unfoldable pub pending_intents : Storage → List (Index × CallAuditIntent)
pending_intents s = take call_audit_drain_limit (list_ordered s.outbox)

-- `accepted` is whether the database took the batch, and `meanwhile` what the mailbox handles of
-- other events until it answers.
unfoldable pub flush_waiting : (Storage → Storage) → Bool → ℕ → Option ℕ → Storage → Storage
flush_waiting meanwhile accepted now maintenance s = elim (pending_intents s) [
  | [] ↦ s
  | first ∷ rest ↦
      let answered = meanwhile s in
      if accepted
      then schedule_next_alarm now maintenance
          (record answered { outbox = delete_all (first ∷ rest) answered.outbox })
      else record answered { alarm = some (now + call_audit_retry_ms) }
]

-- The same where nothing else is handled.
unfoldable pub flush_audit_outbox : Bool → ℕ → Option ℕ → Storage → Storage
unfolding flush_waiting
flush_audit_outbox accepted now maintenance s = flush_waiting (λ u. u) accepted now maintenance s
