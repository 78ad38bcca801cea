-- ===== src/Relay/Mailbox/Admit.antt =====
-- apps/relay/src/do.ts: `admitDurableTask` and `persistTaskWithAudit`.
use agentcall.Base.{
  ℕ, ◌+◌, Bool, true, false, ◌||◌, Option, none, some, String, ◌==◌, if◌then◌else◌, List, get_or,
  leb, ltb, string_eq, nat_eq, pair_eq, ◌*◌,
}
use agentcall.Base.Map.{lookup, put, delete}
use agentcall.Relay.Task.{PersistedTask, task_is_terminal}
use agentcall.Relay.Store.{Storage, Index, CallAuditIntent, queue_key, due_key}
use agentcall.Relay.Audit.{record_intent}
use agentcall.Relay.Mailbox.{release_durable_quota}

abbrev pub mailbox_max_queued_tasks : ℕ
mailbox_max_queued_tasks = 100

abbrev pub mailbox_max_outstanding_per_caller : ℕ
mailbox_max_outstanding_per_caller = 10

abbrev pub mailbox_max_stored_ciphertext_bytes : ℕ
mailbox_max_stored_ciphertext_bytes = 32 * 1024 * 1024

pub data DurableAdmission : Type 0 where
  admitted existing : PersistedTask → DurableAdmission
  capacity conflict : DurableAdmission

-- `undefined === undefined` holds.
abbrev pub same_text : Option String → Option String → Bool
same_text none none = true
same_text (some a) (some b) = a == b
same_text _ _ = false

-- `[fromAgentId, messageId]`, of which the dedupe key is the text
abbrev pub dedupe_key : PersistedTask → String × String
dedupe_key task = (get_or task.from_agent_id "", get_or task.message_id "")

unfoldable pub over_capacity : PersistedTask → Storage → Bool
over_capacity task s =
    leb mailbox_max_queued_tasks s.outstanding
    || leb mailbox_max_outstanding_per_caller
        (get_or (lookup (get_or task.from_agent_id "") s.caller_outstanding) 0)
    || ltb mailbox_max_stored_ciphertext_bytes (s.ciphertext_bytes + get_or task.ciphertext_bytes 0)

unfoldable pub insert_task : PersistedTask → Storage → Storage
insert_task task s =
    let agent = get_or task.from_agent_id "" in
    record s {
      calls = put task.call_id task s.calls;
      dedupe =
          put (dedupe_key task)
            (record {
              call_id = task.call_id;
              request_envelope_sha256 = task.request_envelope_sha256;
              purge_at = task.purge_at;
            })
            s.dedupe;
      queue = put (queue_key task) task.call_id s.queue;
      due = put (due_key task) task.call_id s.due;
      outstanding = s.outstanding + 1;
      caller_outstanding =
          put agent (get_or (lookup agent s.caller_outstanding) 0 + 1) s.caller_outstanding;
      ciphertext_bytes = s.ciphertext_bytes + get_or task.ciphertext_bytes 0;
    }

unfoldable pub admit_durable_task :
    ℕ → PersistedTask → Option CallAuditIntent → Storage → Storage × DurableAdmission
admit_durable_task now task intent s = elim (lookup (dedupe_key task) s.dedupe) [
  | some found ↦
      if same_text found.request_envelope_sha256 task.request_envelope_sha256
      then elim (lookup found.call_id s.calls) [
        | none ↦ (s, conflict)
        | some previous ↦ (s, existing previous)
      ]
      else (s, conflict)
  | none ↦
      if over_capacity task s
      then (s, capacity)
      else (record_intent now intent (insert_task task s), admitted task)
]

abbrev pub move_due : PersistedTask → PersistedTask → List (Index × String) → List (Index × String)
move_due previous next due =
    if due_key previous == due_key next then due else delete (due_key previous) due

-- Only the record of a call that ends gives its quota back.
abbrev pub settle_quota : PersistedTask → PersistedTask → Storage → Storage × PersistedTask
settle_quota previous task s =
    if task_is_terminal task then release_durable_quota previous task s else (s, task)

unfoldable pub write_task : PersistedTask → Storage → Storage
write_task task s = elim (lookup task.call_id s.calls) [
  | none ↦ record s {
    calls = put task.call_id task s.calls;
    due = put (due_key task) task.call_id s.due;
  }
  | some previous ↦
      let r = settle_quota previous task s in
      record (r.0) {
        calls = put task.call_id r.1 (r.0).calls;
        due = put (due_key r.1) task.call_id (move_due previous r.1 (r.0).due);
      }
]

unfoldable pub persist_task_with_audit :
    ℕ → PersistedTask → Option CallAuditIntent → Storage → Storage
persist_task_with_audit now task intent s = record_intent now intent (write_task task s)
