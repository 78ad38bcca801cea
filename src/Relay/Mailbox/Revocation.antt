-- ===== src/Relay/Mailbox/Revocation.antt =====
-- What a revocation leaves of the other calls that wait.
use agentcall.Base.{
  ℕ, ◌+◌, ◌≡◌, true, false, not, ◌||◌, Option, none, some, String, if◌then◌else◌, arith, refl, sym,
  ap, ◌∙◌, inl, inr, Option-cases, Bool-cases, ◌==◌, string_eq,
}
use agentcall.Base.Map.{lookup, put}
use agentcall.Base.Map.Laws.{lookup-put}
use agentcall.Base.Map.Weight.{weight, weight_of, weight-put}
use agentcall.Relay.Task.{PersistedTask, is_queued, is_durable, task_is_terminal}
use agentcall.Relay.Store.{Storage, CallAuditIntent}
use agentcall.Relay.Audit.{record_intent}
use agentcall.Relay.Mailbox.{release_durable_quota, replace_terminal}
use agentcall.Relay.Mailbox.Settle.{revoke_durable_task, revoked_task}

unfoldable pub waiting : PersistedTask → ℕ
waiting t = if is_queued t then 1 else 0

-- The second storage is the first but for calls that wait no longer.
pub record Undisturbed (s u : Storage) : Type 0 where
  pub active : u.active ≡ s.active
  pub starts : u.starts ≡ s.starts
  pub calls :
      (j : String) (t : PersistedTask)
      → lookup j u.calls ≡ some t
      → is_queued t ≡ true
      → lookup j s.calls ≡ some t

record_intent-Undisturbed :
    (now : ℕ) (i : Option CallAuditIntent) (s u : Storage)
    → Undisturbed s u
    → Undisturbed s (record_intent now i u)
unfolding record_intent
record_intent-Undisturbed now none s u x = x
record_intent-Undisturbed now (some i) s u x = record {
  active = x.active;
  starts = x.starts;
  calls = x.calls;
}

record_intent-calls :
    (now : ℕ) (i : Option CallAuditIntent) (s : Storage) → (record_intent now i s).calls ≡ s.calls
unfolding record_intent
record_intent-calls now none s = refl
record_intent-calls now (some i) s = refl

-- The record that `replace_terminal` writes.
written : PersistedTask → PersistedTask → PersistedTask
written p n =
    if not (is_durable p) || p.quota_released then n else record n { quota_released = true }

replace_terminal-calls :
    (id : String) (p n : PersistedTask) (s : Storage)
    → (replace_terminal id p n s).calls ≡ put id (written p n) s.calls
unfolding replace_terminal release_durable_quota written
replace_terminal-calls id p n s = elim (Bool-cases (not (is_durable p) || p.quota_released)) [
  | inl h ↦ rw (h, release_durable_quota) refl
  | inr h ↦ rw (h, release_durable_quota) refl
]

replace_terminal-rest :
    (id : String) (p n : PersistedTask) (s : Storage)
    → ((replace_terminal id p n s).active ≡ s.active)
      × ((replace_terminal id p n s).starts ≡ s.starts)
unfolding replace_terminal release_durable_quota
replace_terminal-rest id p n s = elim (Bool-cases (not (is_durable p) || p.quota_released)) [
  | inl h ↦ rw (h, replace_terminal, release_durable_quota) (refl, refl)
  | inr h ↦ rw (h, replace_terminal, release_durable_quota) (refl, refl)
]

written-queued : (p n : PersistedTask) → is_queued n ≡ false → is_queued (written p n) ≡ false
unfolding written
written-queued p n h = ground arith

replace_terminal-Undisturbed :
    (id : String) (p n : PersistedTask) (s : Storage)
    → is_queued n ≡ false
    → Undisturbed s (replace_terminal id p n s)
replace_terminal-Undisturbed id p n s q = record {
  active = (replace_terminal-rest id p n s).0;
  starts = (replace_terminal-rest id p n s).1;
  calls = λ j t h w.
      let h' = sym (ap (lookup j) (replace_terminal-calls id p n s)) ∙ h in
      elim (Bool-cases (id == j)) [
        | inl e ↦ ground (arith, lookup-put id j (written p n) s.calls, written-queued p n q)
        | inr e ↦ ground (arith, lookup-put id j (written p n) s.calls)
      ];
}

Undisturbed-refl : (s : Storage) → Undisturbed s s
Undisturbed-refl s = record { active = refl; starts = refl; calls = λ j t h w. h }

pub revoke_durable_task-Undisturbed :
    (now : ℕ) (task : PersistedTask) (s : Storage) → Undisturbed s (revoke_durable_task now task s)
unfolding revoke_durable_task
revoke_durable_task-Undisturbed now task s = elim (Option-cases (lookup task.call_id s.calls)) [
  | inl e ↦ rw (e, revoke_durable_task) (Undisturbed-refl s)
  | inr (p, e) ↦ elim (Bool-cases (task_is_terminal p || not (is_queued p))) [
    | inl h ↦ rw (e, h, revoke_durable_task) (Undisturbed-refl s)
    | inr h ↦
        rw (e, h, revoke_durable_task)
          (record_intent-Undisturbed now _ s _
            (replace_terminal-Undisturbed task.call_id p (revoked_task now task) s refl))
  ]
]

-- A revocation takes one of the calls that wait.
pub revoke_durable_task-waiting :
    (now : ℕ) (task : PersistedTask) (s : Storage)
    → lookup task.call_id s.calls ≡ some task
    → is_queued task ≡ true
    → task_is_terminal task ≡ false
    → weight waiting (revoke_durable_task now task s).calls + 1 ≡ weight waiting s.calls
unfolding revoke_durable_task waiting
revoke_durable_task-waiting now task s e q o =
    let n = revoked_task now task in
    let w = weight-put waiting task.call_id (written task n) s.calls in
    let a : weight_of waiting (lookup task.call_id s.calls) ≡ 1 = rw (e, q) refl in
    let b : waiting (written task n) ≡ 0 = rw (written-queued task n refl) refl in
    let h : (task_is_terminal task || not (is_queued task)) ≡ false = ground arith in
    rw (e, h, revoke_durable_task)
      (rw
        (
          record_intent-calls now _ (replace_terminal task.call_id task n s),
          replace_terminal-calls task.call_id task n s,
        )
        (omega (arith, w, a, b)))
