-- ===== src/Relay/Mailbox/Resubmission.antt =====
-- A durable call that is submitted twice.
use agentcall.Base.{
  ℕ, ◌≡◌, true, false, Option, none, some, String, refl, ap, ◌∙◌, ◌==◌, string_eq, nat_eq, pair_eq,
  arith, eq_iff, Bool-cases, inl, inr, if◌then◌else◌,
}
use agentcall.Base.Map.{lookup}
use agentcall.Base.Map.Laws.{lookup-put}
use agentcall.Relay.Task.{PersistedTask}
use agentcall.Relay.Store.{Storage, CallAuditIntent}
use agentcall.Relay.Audit.{record_intent}
use agentcall.Relay.Mailbox.Admit.{
  admit_durable_task, insert_task, over_capacity, dedupe_key, same_text, admitted, existing,
  conflict,
}

same_text_refl : (a : Option String) → same_text a a ≡ true
same_text_refl none = refl
same_text_refl (some s) = ground (arith, eq_iff s s)

pair_beq_refl : (k : String × String) → (k == k) ≡ true
pair_beq_refl (a, b) = ground (arith, eq_iff a a, eq_iff b b)

recorded :
    (now : ℕ) (i : Option CallAuditIntent) (task : PersistedTask) (s : Storage)
    → (lookup (dedupe_key task) (record_intent now i (insert_task task s)).dedupe
        ≡ some (record {
          call_id = task.call_id;
          request_envelope_sha256 = task.request_envelope_sha256;
          purge_at = task.purge_at;
        }))
      × (lookup task.call_id (record_intent now i (insert_task task s)).calls ≡ some task)
unfolding insert_task record_intent
recorded now none task s = (
  rw (lookup-put (dedupe_key task) (dedupe_key task) _ s.dedupe, pair_beq_refl (dedupe_key task))
      refl,
  ground
      (arith, lookup-put task.call_id task.call_id task s.calls, eq_iff task.call_id task.call_id),
)
recorded now (some i) task s = (
  rw (lookup-put (dedupe_key task) (dedupe_key task) _ s.dedupe, pair_beq_refl (dedupe_key task))
      refl,
  ground
      (arith, lookup-put task.call_id task.call_id task s.calls, eq_iff task.call_id task.call_id),
)

seen :
    (later : ℕ) (j : Option CallAuditIntent) (task again : PersistedTask) (t : Storage)
    → dedupe_key again ≡ dedupe_key task
    → (lookup (dedupe_key task) t.dedupe
        ≡ some (record {
          call_id = task.call_id;
          request_envelope_sha256 = task.request_envelope_sha256;
          purge_at = task.purge_at;
        }))
    → lookup task.call_id t.calls ≡ some task
    → admit_durable_task later again j t ≡ (
        if same_text task.request_envelope_sha256 again.request_envelope_sha256
        then (t, existing task)
        else (t, conflict))
unfolding admit_durable_task
seen later j task again t same e f =
    let e' = ap (λ k. lookup k t.dedupe) same ∙ e in
    elim (Bool-cases (same_text task.request_envelope_sha256 again.request_envelope_sha256)) [
      | inl h ↦ rw (e', h, f, admit_durable_task) refl
      | inr h ↦ rw (e', h, admit_durable_task) refl
    ]

first_admission :
    (now : ℕ) (i : Option CallAuditIntent) (task : PersistedTask) (s : Storage)
    → lookup (dedupe_key task) s.dedupe ≡ none
    → over_capacity task s ≡ false
    → admit_durable_task now task i s ≡ (record_intent now i (insert_task task s), admitted task)
unfolding admit_durable_task
first_admission now i task s new room = rw (new, room, admit_durable_task) refl

-- Once a durable call is admitted, a call of the same agent with the same message id changes
-- nothing: it gets the stored call back if its envelope has the same digest, and is a conflict
-- otherwise.
pub admit_durable_task-admit_durable_task :
    (now later : ℕ) (i j : Option CallAuditIntent) (task again : PersistedTask) (s : Storage)
    → lookup (dedupe_key task) s.dedupe ≡ none
    → over_capacity task s ≡ false
    → dedupe_key again ≡ dedupe_key task
    → let admission = admit_durable_task now task i s in
      (admission.1 ≡ admitted task)
      × (admit_durable_task later again j admission.0 ≡ (
          if same_text task.request_envelope_sha256 again.request_envelope_sha256
          then (admission.0, existing task)
          else (admission.0, conflict)))
admit_durable_task-admit_durable_task now later i j task again s new room same =
    let r = recorded now i task s in
    rw (first_admission now i task s new room) (refl, seen later j task again _ same r.0 r.1)
