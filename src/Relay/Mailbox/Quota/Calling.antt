-- ===== src/Relay/Mailbox/Quota/Calling.antt =====
-- A caller's frame keeps the quota counters exact.
use agentcall.Base.{
  ℕ, ◌≡◌, Bool, false, not, ◌&&◌, ◌||◌, Option, none, some, String, List, string_eq, nat_eq,
  pair_eq, refl, inl, inr, Option-cases, Bool-cases, leb, length, is_some, ◌==◌,
}
use agentcall.Base.Map.{lookup}
use agentcall.Relay.Task.{PersistedTask, Envelope, is_durable}
use agentcall.Relay.Store.{Storage, CallAuditIntent, first_ordered}
use agentcall.Relay.Window.{Windows, read_live_rate_limit_stamps, rate_limit_per_hour}
use agentcall.Relay.Mailbox.{truthy}
use agentcall.Relay.Mailbox.Admit.{
  write_task, persist_task_with_audit, DurableAdmission, admitted, existing, capacity, conflict,
}
use agentcall.Relay.Mailbox.Handler.{World}
use agentcall.Relay.Mailbox.Caller.{
  CallerAttachment, CallerFrame, durable_task, live_task, answer_admission, enqueue, ring, place,
  call_frame, oversized_frame, caller_message, recall, request_routed,
}
use agentcall.Relay.Mailbox.Quota.{IsExact, Exact-put}
use agentcall.Relay.Mailbox.Quota.Preserve.{record_intent-IsExact, admit_durable_task-IsExact}
use agentcall.Relay.Mailbox.Quota.Flush.{flush_audit_outbox-IsExact, schedule_next_alarm-IsExact}

fresh_task-IsExact :
    (now : ℕ) (t : PersistedTask) (i : Option CallAuditIntent) (s : Storage)
    → IsExact s
    → lookup t.call_id s.calls ≡ none
    → is_durable t ≡ false
    → t.quota_released ≡ false
    → IsExact (persist_task_with_audit now t i s)
unfolding persist_task_with_audit write_task
fresh_task-IsExact now t i s x fresh d q = record_intent-IsExact now i _ (
    rw (fresh, write_task)
      (Exact-put x t.call_id t s.outstanding s.caller_outstanding s.ciphertext_bytes
        (refl, rw (q, d) refl) (rw (fresh, d) refl) (λ a. rw (fresh, d) refl) (rw (fresh, d) refl)
        x.within x.caller_within))

answer_admission-IsExact :
    (w : World) (now : ℕ) (att : CallerAttachment) (stamps : List ℕ) (t : PersistedTask)
    (windows : Windows) (r : Storage × DurableAdmission)
    → IsExact r.0
    → IsExact (answer_admission w now att stamps t windows r).storage
unfolding answer_admission
answer_admission-IsExact w now att stamps t windows (s, admitted _) x =
    schedule_next_alarm-IsExact now _ _
      (flush_audit_outbox-IsExact w.directory.database_accepts now _ s x)
answer_admission-IsExact w now att stamps t windows (s, existing _) x = x
answer_admission-IsExact w now att stamps t windows (s, capacity) x = x
answer_admission-IsExact w now att stamps t windows (s, conflict) x = x

module _ (w : World) (digest : Envelope → String) (now : ℕ) (fresh : String)
    (att : CallerAttachment) (s : Storage) (x : IsExact s) (unused : lookup fresh s.calls ≡ none)
    (named : (att.from_agent_id == "") ≡ false) where
  enqueue-IsExact :
      (frame : CallerFrame) (stamps : List ℕ) (windows : Windows)
      → IsExact (enqueue w digest now fresh att frame stamps windows s).storage
  unfolding enqueue durable_task live_task
  enqueue-IsExact frame stamps windows =
      answer_admission-IsExact w now att stamps _ windows _
        (admit_durable_task-IsExact now _ _ s x unused refl refl refl (rw named refl))

  ring-IsExact :
      (frame : CallerFrame) (stamps : List ℕ) (windows : Windows)
      → IsExact (ring w now fresh att frame stamps windows s).storage
  unfolding ring live_task
  ring-IsExact frame stamps windows = schedule_next_alarm-IsExact now _ _ (
      flush_audit_outbox-IsExact w.directory.database_accepts now _ _
        (fresh_task-IsExact now _ _ s x unused refl refl))

  place-IsExact :
      (listening : Bool) (frame : CallerFrame) (stamps : List ℕ) (windows : Windows)
      → IsExact (place w digest now fresh listening att frame stamps windows s).storage
  unfolding place
  place-IsExact listening frame stamps windows =
      let queued = enqueue-IsExact frame stamps windows in
      let rung = ring-IsExact frame stamps windows in
      elim (Bool-cases (not listening || frame.durable && is_some (first_ordered s.queue))) [
        | inr h ↦ rw (h, place) rung
        | inl h ↦
            elim (Bool-cases (frame.durable && att.mailbox_enabled && not att.caller_blocked)) [
              | inl m ↦ rw (h, m, place) queued
              | inr m ↦ elim (Bool-cases (not listening)) [
                | inl l ↦ rw (h, m, l, place) x
                | inr l ↦ rw (h, m, l, place) rung
              ]
            ]
      ]

  call_frame-IsExact :
      (listening : Bool) (parsed : Option CallerFrame) (stamps : List ℕ) (windows : Windows)
      → IsExact (call_frame w digest now fresh listening att parsed stamps windows s).storage
  unfolding call_frame
  call_frame-IsExact listening none stamps windows = x
  call_frame-IsExact listening (some frame) stamps windows =
      let placed = place-IsExact listening frame stamps windows in
      elim (Bool-cases (not (request_routed att frame.envelope))) [
        | inl h ↦ rw (h, call_frame) x
        | inr h ↦ elim (Option-cases (recall digest att frame s)) [
          | inr (_, e) ↦ rw (h, e, call_frame) x
          | inl e ↦ elim (Bool-cases (leb rate_limit_per_hour (length stamps))) [
            | inl l ↦ rw (h, e, l, call_frame) x
            | inr l ↦ rw (h, e, l, call_frame) placed
          ]
        ]
      ]

  oversized_frame-IsExact :
      (stamps : List ℕ) (windows : Windows)
      → IsExact (oversized_frame now att stamps windows s).storage
  unfolding oversized_frame
  oversized_frame-IsExact stamps windows =
      elim (Bool-cases (leb rate_limit_per_hour (length stamps))) [
        | inl l ↦ rw (l, oversized_frame) x
        | inr l ↦ rw (l, oversized_frame) (schedule_next_alarm-IsExact now _ s x)
      ]

  pub caller_message-IsExact :
      (listening oversized : Bool) (parsed : Option CallerFrame) (windows : Windows)
      → IsExact (caller_message w digest now fresh listening att oversized parsed windows s).storage
  unfolding caller_message
  caller_message-IsExact listening oversized parsed windows =
      let stamps = read_live_rate_limit_stamps att.from now windows in
      elim (Bool-cases (is_some (truthy att.call_id))) [
        | inl h ↦ rw (h, caller_message) x
        | inr h ↦ elim (Bool-cases oversized) [
          | inl o ↦ rw (h, o, caller_message) (oversized_frame-IsExact stamps windows)
          | inr o ↦ rw (h, o, caller_message) (call_frame-IsExact listening parsed stamps windows)
        ]
      ]
