-- ===== src/Relay/Mailbox/Quota/Dispatching.antt =====
-- Dispatching keeps the quota counters exact.
use agentcall.Base.{
  ℕ, zero, suc, ◌≡◌, true, not, ◌&&◌, ◌||◌, none, String, if◌then◌else◌, string_eq, arith, refl,
  ◌⊎◌, inl, inr, Option-cases, Bool-cases, keep,
}
use agentcall.Base.Map.{lookup}
use agentcall.Relay.Task.{PersistedTask, is_durable, task_is_terminal, is_queued}
use agentcall.Relay.Store.{Storage, Index, first_ordered}
use agentcall.Relay.Mailbox.{truthy}
use agentcall.Relay.Mailbox.Dispatch.{
  Directory, ListenerAttachment, rebind_active, lease_next, lease_head, rebound_task, leased_task,
  finish_durable_task, check_head, check_candidate, can_rebind, dispatch_queue, dispatch_next,
  is_capped, is_live_start, revoke_and_flush, Readiness, ready, capped, too_late, unauthorized,
}
use agentcall.Relay.Mailbox.Quota.{IsExact}
use agentcall.Relay.Mailbox.Quota.Flush.{flush_waiting-IsExact}
use agentcall.Relay.Mailbox.Quota.Preserve.{same_weight-Exact, revoke_durable_task-IsExact}

-- What is handled while the database answers keeps the counters exact.
abbrev pub Keeps : Directory → Type 0
Keeps d = (u : Storage) → IsExact u → IsExact (d.meanwhile u)

rebind_active-IsExact :
    (now : ℕ) (fresh session id : String) (s : Storage)
    → IsExact s
    → IsExact (rebind_active now fresh session id s).0
unfolding rebind_active rebound_task
rebind_active-IsExact now fresh session id s x = elim (Option-cases (lookup id s.calls)) [
  | inl e ↦ rw (e, rebind_active) x
  | inr (p, e) ↦ elim (Bool-cases (can_rebind p)) [
    | inr h ↦ rw (e, h, rebind_active) x
    | inl h ↦
        rw (e, h, rebind_active) (same_weight-Exact id s p _ x e refl refl refl refl refl refl)
  ]
]

lease_head-IsExact :
    (now : ℕ) (fresh session : String) (ms : ℕ) (key : Index) (id : String) (s : Storage)
    → IsExact s
    → IsExact (lease_head now fresh session ms key id s).0
unfolding lease_head leased_task
lease_head-IsExact now fresh session ms key id s x = elim (Option-cases (lookup id s.calls)) [
  | inl e ↦ rw (e, lease_head) x
  | inr (p, e) ↦ elim (Bool-cases (task_is_terminal p || not (is_queued p))) [
    | inl h ↦ rw (e, h, lease_head) x
    | inr h ↦
        let d : is_durable p ≡ true = ground arith in
        rw (e, h, lease_head) (same_weight-Exact id s p _ x e refl (rw d refl) refl refl refl refl)
  ]
]

pub lease_next-IsExact :
    (now : ℕ) (fresh session : String) (ms : ℕ) (s : Storage)
    → IsExact s
    → IsExact (lease_next now fresh session ms s).0
unfolding lease_next
lease_next-IsExact now fresh session ms s x = elim (Option-cases (truthy s.active)) [
  | inr (_, e) ↦ rw (e, lease_next) x
  | inl e ↦ elim (Option-cases (first_ordered s.queue)) [
    | inl h ↦ rw (e, h, lease_next) x
    | inr ((key, id), h) ↦
        rw (e, h, lease_next) (lease_head-IsExact now fresh session ms key id s x)
  ]
]

check_candidate-IsExact :
    (d : Directory) (now : ℕ) (p : PersistedTask) (s : Storage)
    → Keeps d
    → IsExact s
    → IsExact (check_candidate d now p s).0
unfolding check_candidate
check_candidate-IsExact d now p s keeps x =
    elim (Bool-cases (is_capped (keep (is_live_start now) s.starts))) [
      | inl h ↦ rw (h, check_candidate) x
      | inr h ↦ rw (h, check_candidate) (keeps _ x)
    ]

pub check_head-IsExact :
    (d : Directory) (now : ℕ) (s : Storage) → Keeps d → IsExact s → IsExact (check_head d now s).0
unfolding check_head
check_head-IsExact d now s keeps x = elim (Option-cases (first_ordered s.queue)) [
  | inl e ↦ rw (e, check_head) x
  | inr ((_, id), e) ↦ elim (Option-cases (lookup id s.calls)) [
    | inl h ↦ rw (e, h, check_head) x
    | inr (p, h) ↦ elim (Bool-cases (is_queued p && not (task_is_terminal p))) [
      | inl g ↦ rw (e, h, g, check_head) (check_candidate-IsExact d now p s keeps x)
      | inr g ↦ rw (e, h, g, check_head) x
    ]
  ]
]

pub Readiness-cases :
    (r : Readiness)
    → (r ≡ ready) ⊎ (((r ≡ capped) ⊎ (r ≡ too_late)) ⊎ ((p : PersistedTask) × (r ≡ unauthorized p)))
Readiness-cases ready = inl refl
Readiness-cases capped = inr (inl (inl refl))
Readiness-cases too_late = inr (inl (inr refl))
Readiness-cases (unauthorized p) = inr (inr (p, refl))

pub revoke_and_flush-IsExact :
    (d : Directory) (now : ℕ) (p : PersistedTask) (s : Storage)
    → Keeps d
    → IsExact s
    → IsExact (revoke_and_flush d now p s)
unfolding revoke_and_flush
revoke_and_flush-IsExact d now p s keeps x =
    flush_waiting-IsExact d.meanwhile d.database_accepts now d.maintenance _ keeps
      (revoke_durable_task-IsExact now p s x)

dispatch_queue-IsExact :
    (fuel : ℕ) (d : Directory) (now : ℕ) (fresh session : String) (ms : ℕ) (s : Storage)
    → Keeps d
    → IsExact s
    → IsExact (dispatch_queue fuel d now fresh session ms s).0
unfolding dispatch_queue
dispatch_queue-IsExact zero d now fresh session ms s keeps x = x
dispatch_queue-IsExact (suc fuel) d now fresh session ms s keeps x =
    elim (Option-cases (truthy s.active)) [
      | inr (id, a) ↦ rw (a, dispatch_queue) (rebind_active-IsExact now fresh session id s x)
      | inl a ↦
          let c = check_head-IsExact d now s keeps x in
          elim (Readiness-cases (check_head d now s).1) [
            | inl h ↦ rw (a, h, dispatch_queue) (lease_next-IsExact now fresh session ms _ c)
            | inr (inl (inl h)) ↦ rw (a, h, dispatch_queue) c
            | inr (inl (inr h)) ↦ rw (a, h, dispatch_queue) c
            | inr (inr (p, h)) ↦
                rw (a, h, dispatch_queue)
                  (dispatch_queue-IsExact fuel d now fresh session ms _ keeps
                    (revoke_and_flush-IsExact d now p _ keeps c))
          ]
    ]

pub dispatch_next-IsExact :
    (d : Directory) (now : ℕ) (fresh : String) (l : ListenerAttachment)
    → Keeps d
    → (s : Storage) → IsExact s
    → IsExact (dispatch_next d now fresh l s).0
unfolding dispatch_next
dispatch_next-IsExact d now fresh l keeps s x =
    elim (Option-cases (if l.mailbox_capable then truthy l.listener_session_id else none)) [
      | inl e ↦ rw (e, dispatch_next) x
      | inr (session, e) ↦
          rw (e, dispatch_next) (dispatch_queue-IsExact _ d now fresh session _ s keeps x)
    ]

pub finish_durable_task-IsExact :
    (task : PersistedTask) (s : Storage) → IsExact s → IsExact (finish_durable_task task s)
unfolding finish_durable_task
finish_durable_task-IsExact task s x = elim (Bool-cases (is_durable task)) [
  | inl d ↦ rw (d, finish_durable_task) x
  | inr d ↦ rw (d, finish_durable_task) x
]
