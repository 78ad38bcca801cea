-- ===== src/Relay/Mailbox/Quota/Preserve.antt =====
-- Every transaction of the mailbox keeps the quota counters exact.
use agentcall.Base.{
  ℕ, ◌+◌, ◌≡◌, true, false, not, ◌||◌, Option, none, some, String, get_or, string_eq, nat_eq,
  pair_eq, arith, ltb, refl, sym, ◌∙◌, inl, inr, Option-cases, Bool-cases, eq_iff,
}
use agentcall.Base.Map.{lookup, put}
use agentcall.Base.Map.Laws.{lookup-put}
use agentcall.Relay.Task.{PersistedTask, Lease, is_durable, task_is_terminal, is_queued, is_leased}
use agentcall.Relay.Store.{Storage, CallAuditIntent}
use agentcall.Relay.Audit.{record_intent}
use agentcall.Relay.Mailbox.{truthy, release_durable_quota, replace_terminal, clear_active}
use agentcall.Relay.Mailbox.Admit.{
  same_text, admit_durable_task, insert_task, write_task, over_capacity, dedupe_key, settle_quota,
}
use agentcall.Relay.Mailbox.Settle.{
  cancel_undelivered, revoke_durable_task, recover_expired_lease, release_lease, canceled_task,
  revoked_task, undeliverable_task,
}
use agentcall.Relay.Mailbox.Quota.{Exact, IsExact, Exact-put}
use agentcall.Relay.Mailbox.Quota.Release.{released-Exact}

pub record_intent-IsExact :
    (now : ℕ) (i : Option CallAuditIntent) (s : Storage)
    → IsExact s
    → IsExact (record_intent now i s)
unfolding record_intent
record_intent-IsExact now none s x = x
record_intent-IsExact now (some i) s x = x

pub clear_active-IsExact : (id : String) (s : Storage) → IsExact s → IsExact (clear_active id s)
unfolding clear_active
clear_active-IsExact id s x = x

pub replace_terminal-IsExact :
    (id : String) (s : Storage) (p n : PersistedTask)
    → IsExact s
    → lookup id s.calls ≡ some p
    → is_durable p ≡ true
    → task_is_terminal p ≡ false
    → n.call_id ≡ p.call_id
    → is_durable n ≡ true
    → task_is_terminal n ≡ true
    → IsExact (replace_terminal id p n s)
unfolding replace_terminal
replace_terminal-IsExact id s p n x found d o same d' t =
    released-Exact id s p n x found d o same d' t

-- A rewrite of one record that changes nothing that counts.
pub same_weight-Exact :
    (id : String) (s : Storage) (p n : PersistedTask)
    → IsExact s
    → lookup id s.calls ≡ some p
    → n.call_id ≡ p.call_id
    → is_durable n ≡ is_durable p
    → task_is_terminal n ≡ task_is_terminal p
    → n.quota_released ≡ p.quota_released
    → n.from_agent_id ≡ p.from_agent_id
    → n.ciphertext_bytes ≡ p.ciphertext_bytes
    → Exact (put id n s.calls) s.outstanding s.caller_outstanding s.ciphertext_bytes
same_weight-Exact id s p n x found same d t q a b =
    Exact-put x id n s.outstanding s.caller_outstanding s.ciphertext_bytes
      (rw (same, q, d, t) (x.settled id p found)) (rw (found, d, t) refl)
      (λ agent. rw (found, d, t, a) refl) (rw (found, d, b) refl) x.within x.caller_within

pub insert_task-IsExact :
    (task : PersistedTask) (s : Storage)
    → IsExact s
    → lookup task.call_id s.calls ≡ none
    → is_durable task ≡ true
    → task_is_terminal task ≡ false
    → task.quota_released ≡ false
    → truthy task.from_agent_id ≡ some (get_or task.from_agent_id "")
    → over_capacity task s ≡ false
    → IsExact (insert_task task s)
unfolding insert_task over_capacity
insert_task-IsExact task s x fresh d o q named room =
    let agent = get_or task.from_agent_id "" in
    Exact-put x task.call_id task (s.outstanding + 1)
      (put agent (get_or (lookup agent s.caller_outstanding) 0 + 1) s.caller_outstanding)
      (s.ciphertext_bytes + get_or task.ciphertext_bytes 0) (refl, rw (q, d, o) refl)
      (rw (fresh, d, o) (omega arith))
      (λ a.
        rw (fresh, d, o, named)
          (ground (
            arith,
            eq_iff agent a,
            lookup-put agent a (get_or (lookup agent s.caller_outstanding) 0 + 1)
                s.caller_outstanding,
          )))
      (rw (fresh, d) (omega arith)) (ground arith)
      (λ a. ground (
        arith,
        eq_iff agent a,
        x.caller_within a,
        lookup-put agent a (get_or (lookup agent s.caller_outstanding) 0 + 1) s.caller_outstanding,
      ))

pub admit_durable_task-IsExact :
    (now : ℕ) (task : PersistedTask) (i : Option CallAuditIntent) (s : Storage)
    → IsExact s
    → lookup task.call_id s.calls ≡ none
    → is_durable task ≡ true
    → task_is_terminal task ≡ false
    → task.quota_released ≡ false
    → truthy task.from_agent_id ≡ some (get_or task.from_agent_id "")
    → IsExact (admit_durable_task now task i s).0
unfolding admit_durable_task
admit_durable_task-IsExact now task i s x fresh d o q named =
    elim (Option-cases (lookup (dedupe_key task) s.dedupe)) [
      | inl e ↦ elim (Bool-cases (over_capacity task s)) [
        | inl h ↦ rw (e, h, admit_durable_task) x
        | inr h ↦
            rw (e, h, admit_durable_task)
              (record_intent-IsExact now i _ (insert_task-IsExact task s x fresh d o q named h))
      ]
      | inr (r, e) ↦
          elim (Bool-cases (same_text r.request_envelope_sha256 task.request_envelope_sha256)) [
            | inr h ↦ rw (e, h, admit_durable_task) x
            | inl h ↦ elim (Option-cases (lookup r.call_id s.calls)) [
              | inl g ↦ rw (e, h, g, admit_durable_task) x
              | inr (_, g) ↦ rw (e, h, g, admit_durable_task) x
            ]
          ]
    ]

pub cancel_undelivered-IsExact :
    (now : ℕ) (id : String) (s : Storage) → IsExact s → IsExact (cancel_undelivered now id s).0
unfolding cancel_undelivered
cancel_undelivered-IsExact now id s x = elim (Option-cases (lookup id s.calls)) [
  | inl e ↦ rw (e, cancel_undelivered) x
  | inr (p, e) ↦ elim (Bool-cases (task_is_terminal p)) [
    | inl t ↦ rw (e, t, cancel_undelivered) x
    | inr o ↦ elim (Bool-cases (is_queued p || is_leased p)) [
      | inr h ↦ rw (e, o, h, cancel_undelivered) x
      | inl h ↦
          rw (e, o, h, cancel_undelivered)
            (record_intent-IsExact now _ _ (
              clear_active-IsExact id (replace_terminal id p (canceled_task now p) s) (
                replace_terminal-IsExact id s p (canceled_task now p) x e (ground arith) o refl refl
                  refl)))
    ]
  ]
]

pub revoke_durable_task-IsExact :
    (now : ℕ) (task : PersistedTask) (s : Storage)
    → IsExact s
    → IsExact (revoke_durable_task now task s)
unfolding revoke_durable_task
revoke_durable_task-IsExact now task s x = elim (Option-cases (lookup task.call_id s.calls)) [
  | inl e ↦ rw (e, revoke_durable_task) x
  | inr (p, e) ↦ elim (Bool-cases (task_is_terminal p || not (is_queued p))) [
    | inl h ↦ rw (e, h, revoke_durable_task) x
    | inr h ↦
        rw (e, h, revoke_durable_task)
          (record_intent-IsExact now _ _ (
            replace_terminal-IsExact task.call_id s p (revoked_task now task) x e (ground arith)
              (ground arith) (sym (x.settled task.call_id p e).0) refl refl))
  ]
]

release_lease-IsExact :
    (id : String) (now : ℕ) (p : PersistedTask) (l : Lease) (s : Storage)
    → IsExact s
    → lookup id s.calls ≡ some p
    → is_durable p ≡ true
    → task_is_terminal p ≡ false
    → IsExact (release_lease id now p l s)
unfolding release_lease
release_lease-IsExact id now p l s x e d o = elim (Bool-cases (ltb l.attempt 3)) [
  | inl h ↦
      rw (h, release_lease) (same_weight-Exact id s p _ x e refl (rw d refl) refl refl refl refl)
  | inr h ↦
      rw (h, release_lease)
        (record_intent-IsExact now _ _ (
          replace_terminal-IsExact id (clear_active id s) p (undeliverable_task now p) x e d o refl
            refl refl))
]

pub recover_expired_lease-IsExact :
    (id : String) (now : ℕ) (s : Storage) → IsExact s → IsExact (recover_expired_lease id now s)
unfolding recover_expired_lease
recover_expired_lease-IsExact id now s x = elim (Option-cases (lookup id s.calls)) [
  | inl e ↦ rw (e, recover_expired_lease) x
  | inr (p, e) ↦ elim (Option-cases p.lease) [
    | inl h ↦ rw (e, h, recover_expired_lease) x
    | inr (l, h) ↦
        elim (Bool-cases (not (is_leased p) || ltb now l.expires_at || task_is_terminal p)) [
          | inl g ↦ rw (e, h, g, recover_expired_lease) x
          | inr g ↦
              rw (e, h, g, recover_expired_lease)
                (release_lease-IsExact id now p l s x e (ground arith) (ground arith))
        ]
  ]
]

-- What a handler that has just read the record `p` of an open call may write in its place.
pub record Continues (p n : PersistedTask) : Type 0 where
  pub same : n.call_id ≡ p.call_id
  pub was_open : task_is_terminal p ≡ false
  pub durable : is_durable n ≡ is_durable p
  pub mark : n.quota_released ≡ p.quota_released
  pub agent : n.from_agent_id ≡ p.from_agent_id
  pub bytes : task_is_terminal n ≡ false → n.ciphertext_bytes ≡ p.ciphertext_bytes

settle_quota-Exact :
    (id : String) (s : Storage) (p n : PersistedTask)
    → IsExact s
    → lookup id s.calls ≡ some p
    → Continues p n
    → let r = settle_quota p n s in
      Exact
        (put id r.1 (r.0).calls)
        (r.0).outstanding
        (r.0).caller_outstanding
        (r.0).ciphertext_bytes
unfolding release_durable_quota
settle_quota-Exact id s p n x e k = elim (Bool-cases (task_is_terminal n)) [
  | inr o ↦ rw o (
      same_weight-Exact id s p n x e k.same k.durable (o ∙ sym k.was_open) k.mark k.agent
        (k.bytes o))
  | inl t ↦ elim (Bool-cases (is_durable p)) [
    | inl d ↦ rw t (released-Exact id s p n x e d k.was_open k.same (k.durable ∙ d) t)
    | inr d ↦
        rw (t, d, release_durable_quota)
          (Exact-put x id n s.outstanding s.caller_outstanding s.ciphertext_bytes
            (ground (arith, x.settled id p e, k.mark, k.durable)) (rw (e, k.durable, d) refl)
            (λ a. rw (e, k.durable, d) refl) (rw (e, k.durable, d) refl) x.within x.caller_within)
  ]
]

pub write_task-IsExact :
    (n p : PersistedTask) (s : Storage)
    → IsExact s
    → lookup n.call_id s.calls ≡ some p
    → Continues p n
    → IsExact (write_task n s)
unfolding write_task
write_task-IsExact n p s x e k = rw (e, write_task) (settle_quota-Exact n.call_id s p n x e k)
