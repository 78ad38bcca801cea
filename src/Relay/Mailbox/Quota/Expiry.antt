-- ===== src/Relay/Mailbox/Quota/Expiry.antt =====
-- The expiry of a call keeps the quota counters exact.
use agentcall.Base.{
  ℕ, ◌≤◌, ◌≡◌, true, false, some, String, string_eq, nat_eq, pair_eq, arith, ltb, refl, inl, inr,
  Option-cases, Bool-cases,
}
use agentcall.Base.Map.{lookup}
use agentcall.Base.Map.Weight.{weight_of, weight_of-le-weight}
use agentcall.Relay.Task.{PersistedTask, is_durable, task_is_terminal}
use agentcall.Relay.Store.{Storage}
use agentcall.Relay.Lifecycle.{expire_authorized_call}
use agentcall.Relay.Mailbox.{replace_terminal, team_call_lifecycle}
use agentcall.Relay.Mailbox.Settle.{
  expire_task, expire_ended, expire_durable, expire_live, retain_ended, purge_ended, timed_out_task,
  purge_later,
}
use agentcall.Relay.Mailbox.Quota.{bytes_weight, IsExact, Exact-put, Exact-delete}
use agentcall.Relay.Mailbox.Quota.Preserve.{
  record_intent-IsExact, clear_active-IsExact, replace_terminal-IsExact, same_weight-Exact,
}

stored_at_least :
    (id : String) (s : Storage) (p : PersistedTask)
    → IsExact s
    → lookup id s.calls ≡ some p
    → bytes_weight p ≤ s.ciphertext_bytes
stored_at_least id s p x e =
    let h : weight_of bytes_weight (lookup id s.calls) ≡ bytes_weight p = rw e refl in
    omega (arith, h, weight_of-le-weight bytes_weight id s.calls x.distinct, x.stored)

expire_durable-IsExact :
    (id : String) (now : ℕ) (p : PersistedTask) (s : Storage)
    → IsExact s
    → lookup id s.calls ≡ some p
    → is_durable p ≡ true
    → task_is_terminal p ≡ false
    → IsExact (expire_durable id now p s)
unfolding expire_durable
expire_durable-IsExact id now p s x e d o = record_intent-IsExact now _ _ (
    clear_active-IsExact id (replace_terminal id p (timed_out_task now p) s)
      (replace_terminal-IsExact id s p (timed_out_task now p) x e d o refl refl refl))

retain_ended-IsExact :
    (id : String) (at : ℕ) (p : PersistedTask) (s : Storage)
    → IsExact s
    → lookup id s.calls ≡ some p
    → is_durable p ≡ true
    → IsExact (retain_ended id at p s)
unfolding retain_ended
retain_ended-IsExact id at p s x e d = elim (Option-cases p.outcome_envelope) [
  | inl h ↦ rw (h, retain_ended) (same_weight-Exact id s p _ x e refl refl refl refl refl refl)
  | inr (_, h) ↦
      rw (h, retain_ended)
        (Exact-put x id _ s.outstanding s.caller_outstanding _ (x.settled id p e) (rw e refl)
          (λ a. rw e refl) (rw e (ground (arith, stored_at_least id s p x e))) x.within
          x.caller_within)
]

purge_ended-IsExact :
    (id : String) (p : PersistedTask) (s : Storage)
    → IsExact s
    → lookup id s.calls ≡ some p
    → is_durable p ≡ true
    → task_is_terminal p ≡ true
    → IsExact (purge_ended id p s)
unfolding purge_ended
purge_ended-IsExact id p s x e d t =
    Exact-delete x id p _ e (rw (d, t) refl)
      (ground (arith, stored_at_least id s p x e, x.settled id p e))

expire_ended-IsExact :
    (id : String) (now : ℕ) (p : PersistedTask) (s : Storage)
    → IsExact s
    → lookup id s.calls ≡ some p
    → is_durable p ≡ true
    → task_is_terminal p ≡ true
    → IsExact (expire_ended id now p s)
unfolding expire_ended
expire_ended-IsExact id now p s x e d t = elim (Option-cases (purge_later now p.purge_at)) [
  | inl h ↦ rw (h, expire_ended) (purge_ended-IsExact id p s x e d t)
  | inr (at, h) ↦ rw (h, expire_ended) (retain_ended-IsExact id at p s x e d)
]

expire_live-IsExact :
    (id : String) (now : ℕ) (p : PersistedTask) (s : Storage)
    → IsExact s
    → lookup id s.calls ≡ some p
    → is_durable p ≡ false
    → IsExact (expire_live id now p s)
unfolding expire_live
expire_live-IsExact id now p s x e d = elim (Bool-cases (task_is_terminal p)) [
  | inl t ↦
      rw (t, expire_live)
        (Exact-delete x id p s.ciphertext_bytes e (rw d refl) (rw d (omega arith)))
  | inr t ↦
      rw (t, expire_live)
        (record_intent-IsExact now _ _
          (Exact-delete x id p s.ciphertext_bytes e (rw d refl) (rw d (omega arith))))
]

pub expire_task-IsExact :
    (id : String) (now : ℕ) (s : Storage) → IsExact s → IsExact (expire_task id now s).0
unfolding expire_task
expire_task-IsExact id now s x = elim (Option-cases (lookup id s.calls)) [
  | inl e ↦ rw (e, expire_task) x
  | inr (p, e) ↦ elim (Bool-cases (is_durable p)) [
    | inl d ↦ elim (Bool-cases (ltb now p.deadline)) [
      | inl h ↦ rw (e, d, h, expire_task) x
      | inr h ↦ elim (Bool-cases (task_is_terminal p)) [
        | inl t ↦ rw (e, d, h, t, expire_task) (expire_ended-IsExact id now p s x e d t)
        | inr t ↦ rw (e, d, h, t, expire_task) (expire_durable-IsExact id now p s x e d t)
      ]
    ]
    | inr d ↦ elim (Option-cases (expire_authorized_call (team_call_lifecycle p) now)) [
      | inl h ↦ rw (e, d, h, expire_task) x
      | inr (_, h) ↦ rw (e, d, h, expire_task) (expire_live-IsExact id now p s x e d)
    ]
  ]
]
