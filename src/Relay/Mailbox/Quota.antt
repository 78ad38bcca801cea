-- ===== src/Relay/Mailbox/Quota.antt =====
-- The quota counters of the mailbox against the calls that it stores.
pub mod Flush
pub mod Release
pub mod Preserve
pub mod Expiry
pub mod Dispatching
pub mod Handlers
pub mod Calling
pub mod Steps
use agentcall.Base.{
  ℕ, ◌+◌, ◌≤◌, ◌≡◌, Bool, true, false, not, ◌&&◌, Option, none, some, String, List, if◌then◌else◌,
  get_or, ◌==◌, string_eq, arith, refl, eq_iff, ◌∙◌, ◌≢◌, inl, inr, Option-cases,
}
use agentcall.Base.Map.{lookup, put, delete}
use agentcall.Base.Map.Laws.{lookup-put, lookup-delete}
use agentcall.Base.Map.Weight.{
  Distinct, weight, weight_of, weight-put, weight-delete, Distinct-put, Distinct-delete,
}
use agentcall.Relay.Task.{PersistedTask, is_durable, task_is_terminal}
use agentcall.Relay.Store.{Storage}
use agentcall.Relay.Mailbox.{truthy}
use agentcall.Relay.Mailbox.Admit.{mailbox_max_queued_tasks, mailbox_max_outstanding_per_caller}

-- A durable call that has not ended.
abbrev pub is_outstanding : PersistedTask → Bool
is_outstanding t = is_durable t && not (task_is_terminal t)

abbrev pub is_from : String → Option String → Bool
is_from agent none = false
is_from agent (some a) = a == agent

abbrev pub outstanding_weight : PersistedTask → ℕ
outstanding_weight t = if is_outstanding t then 1 else 0

abbrev pub caller_weight : String → PersistedTask → ℕ
caller_weight agent t = if is_outstanding t && is_from agent (truthy t.from_agent_id) then 1 else 0

abbrev pub bytes_weight : PersistedTask → ℕ
bytes_weight t = if is_durable t then get_or t.ciphertext_bytes 0 else 0

-- A record stands under its own id, and the mark `quota_released` is on the durable calls that
-- have ended, and only there.
abbrev pub Settled : String → PersistedTask → Type 0
Settled id t = (t.call_id ≡ id) × (t.quota_released ≡ (is_durable t && task_is_terminal t))

-- The counters agree with the stored calls, and respect the limits of admission.
pub record Exact (calls : List (String × PersistedTask)) (outstanding : ℕ)
    (callers : List (String × ℕ)) (bytes : ℕ) : Type 0 where
  pub distinct : Distinct calls
  pub settled : (id : String) (t : PersistedTask) → lookup id calls ≡ some t → Settled id t
  pub total : outstanding ≡ weight outstanding_weight calls
  pub each_caller :
      (agent : String) → get_or (lookup agent callers) 0 ≡ weight (caller_weight agent) calls
  pub stored : bytes ≡ weight bytes_weight calls
  pub within : outstanding ≤ mailbox_max_queued_tasks
  pub caller_within :
      (agent : String) → get_or (lookup agent callers) 0 ≤ mailbox_max_outstanding_per_caller

abbrev pub IsExact : Storage → Type 0
IsExact s = Exact s.calls s.outstanding s.caller_outstanding s.ciphertext_bytes

module _ {calls : List (String × PersistedTask)} {o : ℕ} {c : List (String × ℕ)} {b : ℕ}
    (x : Exact calls o c b) (id : String) where
  Settled-put :
      (n : PersistedTask)
      → Settled id n
      → (j : String) (t : PersistedTask) → lookup j (put id n calls) ≡ some t
      → Settled j t
  Settled-put n s j t h = ground (arith, eq_iff id j, lookup-put id j n calls, x.settled j t)

  -- A write of the record of one call, with the counters moved by what the record weighs more.
  pub Exact-put :
      (n : PersistedTask) (o' : ℕ) (c' : List (String × ℕ)) (b' : ℕ)
      → Settled id n
      → o' + weight_of outstanding_weight (lookup id calls) ≡ o + outstanding_weight n
      → ((a : String)
          → get_or (lookup a c') 0 + weight_of (caller_weight a) (lookup id calls)
            ≡ get_or (lookup a c) 0 + caller_weight a n)
      → b' + weight_of bytes_weight (lookup id calls) ≡ b + bytes_weight n
      → o' ≤ mailbox_max_queued_tasks
      → ((a : String) → get_or (lookup a c') 0 ≤ mailbox_max_outstanding_per_caller)
      → Exact (put id n calls) o' c' b'
  Exact-put n o' c' b' s ho hc hb ow cw = record {
    distinct = Distinct-put id n calls x.distinct;
    settled = Settled-put n s;
    total = omega (arith, weight-put outstanding_weight id n calls, x.total, ho);
    each_caller =
        λ a. omega (arith, weight-put (caller_weight a) id n calls, x.each_caller a, hc a);
    stored = omega (arith, weight-put bytes_weight id n calls, x.stored, hb);
    within = ow;
    caller_within = cw;
  }

  Settled-delete :
      (j : String) (t : PersistedTask) → lookup j (delete id calls) ≡ some t → Settled j t
  Settled-delete j t h = ground (arith, lookup-delete id j calls, x.settled j t)

  -- A call that is no longer outstanding may be forgotten, with its bytes.
  pub Exact-delete :
      (p : PersistedTask) (b' : ℕ)
      → lookup id calls ≡ some p
      → is_outstanding p ≡ false
      → b' + bytes_weight p ≡ b
      → Exact (delete id calls) o c b'
  Exact-delete p b' found over hb = record {
    distinct = Distinct-delete id calls x.distinct;
    settled = Settled-delete;
    total =
        let w = weight-delete outstanding_weight id calls x.distinct in
        let e : weight_of outstanding_weight (lookup id calls) ≡ 0 = rw (found, over) refl in
        omega (arith, w, e, x.total);
    each_caller = λ a.
        let w = weight-delete (caller_weight a) id calls x.distinct in
        let e : weight_of (caller_weight a) (lookup id calls) ≡ 0 = rw (found, over) refl in
        omega (arith, w, e, x.each_caller a);
    stored =
        let w = weight-delete bytes_weight id calls x.distinct in
        let e : weight_of bytes_weight (lookup id calls) ≡ bytes_weight p = rw found refl in
        omega (arith, w, e, x.stored, hb);
    within = x.within;
    caller_within = x.caller_within;
  }
