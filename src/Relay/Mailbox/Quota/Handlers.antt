-- ===== src/Relay/Mailbox/Quota/Handlers.antt =====
-- The handlers of the mailbox keep the quota counters exact.
use agentcall.Base.{
  ℕ, ◌≡◌, false, not, ◌&&◌, ◌||◌, Option, none, some, String, List, [], ◌∷◌, string_eq, nat_eq,
  pair_eq, arith, sym, ap, ◌∙◌, inl, inr, Option-cases, Bool-cases, ltb, is_some,
}
use agentcall.Base.Map.{lookup, put}
use agentcall.Relay.Task.{
  PersistedTask, CallState, answered, working, Envelope, TerminalReason, is_durable,
  task_is_terminal,
}
use agentcall.Relay.Store.{Storage, Index, CallAuditIntent}
use agentcall.Relay.Mailbox.{truthy}
use agentcall.Relay.Mailbox.Admit.{persist_task_with_audit}
use agentcall.Relay.Mailbox.Settle.{expire_task}
use agentcall.Relay.Mailbox.Dispatch.{ListenerAttachment}
use agentcall.Relay.Mailbox.Frames.{
  ListenerFrame, ListenerMessage, OutcomeTerminal, call_accepted, call_started, call_cancelled,
  call_not_cancelled, call_rejected, call_outcome, valid_durable_lease, advance_call, write_advance,
  start_durable, is_working, accepted_intent, next_task, unmoved, cancelled_task, rejected_task,
  finished_task,
}
use agentcall.Relay.Mailbox.Handler.{
  World, finish_and_dispatch, after_sweep, end_call, advance, outcome_routed, listener_frame,
  listener_message, expire_due, alarm, recover_active, expire_batch, dispatch_to,
}
use agentcall.Relay.Mailbox.Quota.{IsExact}
use agentcall.Relay.Mailbox.Quota.Preserve.{
  same_weight-Exact, record_intent-IsExact, Continues, write_task-IsExact,
  recover_expired_lease-IsExact,
}
use agentcall.Relay.Mailbox.Quota.Expiry.{expire_task-IsExact}
use agentcall.Relay.Window.{Windows, continue_rate_limit_maintenance}
use agentcall.Relay.Mailbox.Quota.Flush.{flush_audit_outbox-IsExact, schedule_next_alarm-IsExact}
use agentcall.Relay.Mailbox.Quota.Dispatching.{
  Keeps, dispatch_next-IsExact, finish_durable_task-IsExact,
}

-- What a listener's frame writes over the open call that it is about.
next_task-Continues :
    (state : CallState) (l : ListenerAttachment) (now : ℕ) (p : PersistedTask)
    → task_is_terminal p ≡ false
    → Continues p (next_task state l now p)
unfolding next_task
next_task-Continues state l now p o = record {
  same = ground arith;
  was_open = o;
  durable = ground arith;
  mark = ground arith;
  agent = ground arith;
  bytes = λ _. ground arith;
}

cancelled_task-Continues :
    (now : ℕ) (p : PersistedTask) → task_is_terminal p ≡ false → Continues p (cancelled_task now p)
unfolding cancelled_task
cancelled_task-Continues now p o = record {
  same = ground arith;
  was_open = o;
  durable = ground arith;
  mark = ground arith;
  agent = ground arith;
  bytes = λ h. ground arith;
}

rejected_task-Continues :
    (now : ℕ) (p : PersistedTask) → task_is_terminal p ≡ false → Continues p (rejected_task now p)
unfolding rejected_task
rejected_task-Continues now p o = record {
  same = ground arith;
  was_open = o;
  durable = ground arith;
  mark = ground arith;
  agent = ground arith;
  bytes = λ h. ground arith;
}

finished_task-Continues :
    (len : Envelope → ℕ) (t : OutcomeTerminal) (r : Option TerminalReason) (e : Envelope) (now : ℕ)
    (p : PersistedTask)
    → task_is_terminal p ≡ false
    → Continues p (finished_task len t r e now p)
unfolding finished_task
finished_task-Continues len t r e now p o = record {
  same = ground arith;
  was_open = o;
  durable = ground arith;
  mark = ground arith;
  agent = ground arith;
  bytes = λ h. ground arith;
}

next_task_open :
    (state : CallState) (l : ListenerAttachment) (now : ℕ) (p : PersistedTask)
    → task_is_terminal p ≡ false
    → task_is_terminal (next_task state l now p) ≡ false
unfolding next_task
next_task_open state l now p o = ground arith

module _ (p : PersistedTask) (s : Storage) (x : IsExact s)
    (found : lookup p.call_id s.calls ≡ some p) where
  rewritten-IsExact :
      (n : PersistedTask)
      → Continues p n
      → task_is_terminal n ≡ false
      → IsExact (record s { calls = put p.call_id n s.calls })
  rewritten-IsExact n k o =
      same_weight-Exact p.call_id s p n x found k.same k.durable (o ∙ sym k.was_open) k.mark k.agent
        (k.bytes o)

  persisted-IsExact :
      (now : ℕ) (n : PersistedTask) (i : Option CallAuditIntent)
      → Continues p n
      → IsExact (persist_task_with_audit now n i s)
  unfolding persist_task_with_audit
  persisted-IsExact now n i k =
      record_intent-IsExact now i _
        (write_task-IsExact n p s x (ap (λ id. lookup id s.calls) k.same ∙ found) k)

  write_advance-IsExact :
      (state : CallState) (l : ListenerAttachment) (now : ℕ)
      → task_is_terminal p ≡ false
      → IsExact (write_advance state l now p s)
  unfolding write_advance start_durable
  write_advance-IsExact state l now o =
      let n = next_task state l now p in
      let k = next_task-Continues state l now p o in
      let w = rewritten-IsExact n k (next_task_open state l now p o) in
      elim (Bool-cases (is_working state && is_durable p)) [
        | inl h ↦ rw (h, write_advance) (record_intent-IsExact now _ _ w)
        | inr h ↦ elim (Option-cases (accepted_intent state l now p n)) [
          | inl e ↦ rw (h, e, write_advance) w
          | inr (i, e) ↦ rw (h, e, write_advance) (persisted-IsExact now n (some i) k)
        ]
      ]

  advance_call-IsExact :
      (state : CallState) (l : ListenerAttachment) (now : ℕ)
      → task_is_terminal p ≡ false
      → IsExact (advance_call state l now p s).0
  unfolding advance_call
  advance_call-IsExact state l now o = elim (Bool-cases (unmoved state p)) [
    | inl h ↦ rw (h, advance_call) x
    | inr h ↦ rw (h, advance_call) (write_advance-IsExact state l now o)
  ]

  advance-IsExact :
      (w : World) (now : ℕ) (l : ListenerAttachment) (state : CallState)
      → task_is_terminal p ≡ false
      → IsExact (advance w now l state p s).0
  unfolding advance
  advance-IsExact w now l state o =
      let y = advance_call-IsExact state l now o in
      elim (Bool-cases (
        is_some (accepted_intent state l now p (next_task state l now p))
        && not (unmoved state p))) [
          | inl h ↦ rw (h, advance) (flush_audit_outbox-IsExact _ now _ _ y)
          | inr h ↦ rw (h, advance) y
        ]

  end_call-IsExact :
      (w : World) (now : ℕ) (l : ListenerAttachment) (n : PersistedTask)
      (i : Option CallAuditIntent)
      → Keeps w.directory
      → Continues p n
      → IsExact (end_call w now l n i s).0
  unfolding end_call finish_and_dispatch
  end_call-IsExact w now l n i keeps k =
      let y =
        flush_audit_outbox-IsExact w.directory.database_accepts now w.directory.maintenance _
          (persisted-IsExact now n i k) in
      elim (Bool-cases (is_durable n)) [
        | inl h ↦
            rw (h, end_call, finish_and_dispatch)
              (dispatch_next-IsExact w.directory now w.fresh_lease l keeps _
                (finish_durable_task-IsExact n _ y))
        | inr h ↦ rw (h, end_call, finish_and_dispatch) y
      ]

  listener_frame-IsExact :
      (w : World) (now : ℕ) (l : ListenerAttachment) (id : String) (f : ListenerFrame)
      → Keeps w.directory
      → task_is_terminal p ≡ false
      → IsExact (listener_frame w now l id p f s).0
  unfolding listener_frame
  listener_frame-IsExact w now l id call_accepted keeps o = advance-IsExact w now l answered o
  listener_frame-IsExact w now l id call_started keeps o = advance-IsExact w now l working o
  listener_frame-IsExact w now l id call_cancelled keeps o =
      end_call-IsExact w now l _ _ keeps (cancelled_task-Continues now p o)
  listener_frame-IsExact w now l id call_not_cancelled keeps o = x
  listener_frame-IsExact w now l id call_rejected keeps o =
      end_call-IsExact w now l _ _ keeps (rejected_task-Continues now p o)
  listener_frame-IsExact w now l id (call_outcome t r e) keeps o =
      elim (Bool-cases (outcome_routed l e p)) [
        | inl h ↦
            rw (h, listener_frame)
              (end_call-IsExact w now l _ _ keeps
                (finished_task-Continues w.byte_length t r e now p o))
        | inr h ↦ rw (h, listener_frame) x
      ]

-- Whatever frame a listener sends, with whatever lease, the counters stay exact.
pub listener_message-IsExact :
    (w : World) (now : ℕ) (l : ListenerAttachment) (m : ListenerMessage) (s : Storage)
    → Keeps w.directory
    → IsExact s
    → IsExact (listener_message w now l m s).0
unfolding listener_message
listener_message-IsExact w now l m s keeps x = elim (Option-cases (lookup m.call_id s.calls)) [
  | inl e ↦ rw (e, listener_message) x
  | inr (p, e) ↦
      elim (Bool-cases (task_is_terminal p || not (valid_durable_lease p m.lease_id l))) [
        | inl h ↦ rw (e, h, listener_message) x
        | inr h ↦
            rw (e, h, listener_message)
              (listener_frame-IsExact p s x
                (ap (λ id. lookup id s.calls) (x.settled m.call_id p e).0 ∙ e) w now l m.call_id
                m.frame keeps (ground arith))
      ]
]

expire_due-IsExact :
    (now : ℕ) (due : List (Index × String)) (s : Storage)
    → IsExact s
    → IsExact (expire_due now due s).0
unfolding expire_due
expire_due-IsExact now [] s x = x
expire_due-IsExact now (((at, i), id) ∷ due) s x =
    let y = expire_task-IsExact id now s x in
    elim (Bool-cases (ltb now at)) [
      | inl h ↦ rw (h, expire_due) x
      | inr h ↦ elim (Option-cases (expire_task id now s).1) [
        | inl e ↦ rw (h, e, expire_due) (expire_due-IsExact now due _ y)
        | inr (_, e) ↦ rw (h, e, expire_due) (expire_due-IsExact now due _ y)
      ]
    ]

recover_active-IsExact : (now : ℕ) (s : Storage) → IsExact s → IsExact (recover_active now s)
unfolding recover_active
recover_active-IsExact now s x = elim (Option-cases (truthy s.active)) [
  | inl e ↦ rw (e, recover_active) x
  | inr (id, e) ↦
      rw (e, recover_active) (recover_expired_lease-IsExact id now (record s { alarm = none }) x)
]

dispatch_to-IsExact :
    (w : World) (now : ℕ) (l : Option ListenerAttachment) (s : Storage)
    → Keeps w.directory
    → IsExact s
    → IsExact (dispatch_to w now l s).0
unfolding dispatch_to
dispatch_to-IsExact w now none s keeps x = x
dispatch_to-IsExact w now (some l) s keeps x =
    dispatch_next-IsExact w.directory now w.fresh_lease l keeps s x

-- So do the alarm and everything that it sets off.
pub alarm-IsExact :
    (w : World) (now : ℕ) (l : Option ListenerAttachment) (windows : Windows) (s : Storage)
    → Keeps w.directory
    → IsExact s
    → IsExact (alarm w now l windows s).0
unfolding alarm expire_batch
alarm-IsExact w now l windows s keeps x = schedule_next_alarm-IsExact now _ _ (
    dispatch_to-IsExact (after_sweep w (continue_rate_limit_maintenance now windows)) now l _ keeps
      (flush_audit_outbox-IsExact w.directory.database_accepts now _ _
        (expire_due-IsExact now _ _ (recover_active-IsExact now s x))))
