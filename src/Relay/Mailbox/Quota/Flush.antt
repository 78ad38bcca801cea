-- ===== src/Relay/Mailbox/Quota/Flush.antt =====
-- Draining the audit outbox and setting the alarm keep the quota counters exact.
use agentcall.Base.{ℕ, ◌≡◌, Bool, Option, List, [], ◌∷◌, refl, inl, inr, Option-cases, Bool-cases}
use agentcall.Relay.Store.{Storage, Index, CallAuditIntent}
use agentcall.Relay.Mailbox.Flush.{
  next_alarm, schedule_next_alarm, pending_intents, flush_audit_outbox, flush_waiting,
}
use agentcall.Relay.Mailbox.Quota.{IsExact}

pub schedule_next_alarm-IsExact :
    (now : ℕ) (m : Option ℕ) (s : Storage) → IsExact s → IsExact (schedule_next_alarm now m s)
unfolding schedule_next_alarm
schedule_next_alarm-IsExact now m s x = elim (Option-cases (next_alarm now m s)) [
  | inl e ↦ rw (e, schedule_next_alarm) x
  | inr (_, e) ↦ rw (e, schedule_next_alarm) x
]

pub flush_waiting-IsExact :
    (meanwhile : Storage → Storage) (ok : Bool) (now : ℕ) (m : Option ℕ) (s : Storage)
    → ((u : Storage) → IsExact u → IsExact (meanwhile u))
    → IsExact s
    → IsExact (flush_waiting meanwhile ok now m s)
unfolding flush_waiting
flush_waiting-IsExact meanwhile ok now m s keeps x = go (pending_intents s) refl
  where
    go :
        (p : List (Index × CallAuditIntent))
        → pending_intents s ≡ p
        → IsExact (flush_waiting meanwhile ok now m s)
    go [] e = rw (e, flush_waiting) x
    go (i ∷ is) e = elim (Bool-cases ok) [
      | inl h ↦ rw (e, h, flush_waiting) (schedule_next_alarm-IsExact now m _ (keeps s x))
      | inr h ↦ rw (e, h, flush_waiting) (keeps s x)
    ]

pub flush_audit_outbox-IsExact :
    (ok : Bool) (now : ℕ) (m : Option ℕ) (s : Storage)
    → IsExact s
    → IsExact (flush_audit_outbox ok now m s)
unfolding flush_audit_outbox
flush_audit_outbox-IsExact ok now m s x = flush_waiting-IsExact (λ u. u) ok now m s (λ u y. y) x
