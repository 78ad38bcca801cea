-- ===== src/Cli/Outbound/Memory.antt =====
-- What is remembered of the calls that were sent.
use agentcall.Base.{
  ℕ, ◌<◌, ◌≡◌, true, none, some, String, List, [], ◌∷◌, ◌++◌, ◌==◌, if◌then◌else◌, leb, ltb, length,
  keep, find, string_eq, arith, eq_iff, refl, inl, inr, Bool-cases,
}
use agentcall.Cli.Outbound.{
  OutboundJob, job, failed, bound_to_other, is_message, is_unexpired, as_pending,
  remember_outbound_job, max_outbound_jobs,
}

find-none :
    (id : String) (at : ℕ) (n : OutboundJob) (xs : List OutboundJob)
    → find (is_message id) xs ≡ none
    → is_message id n ≡ true
    → is_unexpired at n ≡ true
    → find (is_message id) (keep (is_unexpired at) (xs ++ (n ∷ []))) ≡ some n
find-none id at n [] e m u = ground (arith, m, u)
find-none id at n (x ∷ xs) e m u = ground (arith, find-none id at n xs)

first_time :
    (raw : OutboundJob) (jobs : List OutboundJob)
    → find (is_message raw.message_id) (keep (is_unexpired raw.created_at) jobs) ≡ none
    → (remember_outbound_job raw jobs).1 ≡ job (as_pending raw)
    → (ltb raw.created_at raw.expires_at ≡ true)
      × ((remember_outbound_job raw jobs).0
          ≡ keep (is_unexpired raw.created_at) jobs ++ (as_pending raw ∷ []))
unfolding remember_outbound_job
first_time raw jobs e = elim (Bool-cases (ltb raw.created_at raw.expires_at)) [
  | inr h ↦ rw (h, remember_outbound_job) (λ n. ground (arith, n))
  | inl h ↦
      elim (Bool-cases (leb max_outbound_jobs (length (keep (is_unexpired raw.created_at) jobs)))) [
        | inl g ↦ rw (h, e, g, remember_outbound_job) (λ n. ground (arith, n))
        | inr g ↦ rw (h, e, g, remember_outbound_job) (λ n. (refl, refl))
      ]
]

again_lem :
    (again n : OutboundJob) (store : List OutboundJob)
    → ltb again.created_at again.expires_at ≡ true
    → find (is_message again.message_id) (keep (is_unexpired again.created_at) store) ≡ some n
    → remember_outbound_job again store
      ≡ (if n.frame == again.frame then (store, job n) else (store, failed bound_to_other))
unfolding remember_outbound_job
again_lem again n store h e = elim (Bool-cases (n.frame == again.frame)) [
  | inl f ↦ rw (h, e, f, remember_outbound_job) refl
  | inr f ↦ rw (h, e, f, remember_outbound_job) refl
]

-- A job that is remembered for the first time is given back, and nothing is written, when its
-- message is sent again before it expires; other ciphertext under its message id is refused.
pub remember_outbound_job-remember_outbound_job :
    (raw again : OutboundJob) (jobs : List OutboundJob)
    → find (is_message raw.message_id) (keep (is_unexpired raw.created_at) jobs) ≡ none
    → (remember_outbound_job raw jobs).1 ≡ job (as_pending raw)
    → again.message_id ≡ raw.message_id
    → again.created_at < again.expires_at
    → again.created_at < raw.expires_at
    → let store = (remember_outbound_job raw jobs).0 in
      remember_outbound_job again store ≡ (
        if raw.frame == again.frame
        then (store, job (as_pending raw))
        else (store, failed bound_to_other))
remember_outbound_job-remember_outbound_job raw again jobs e f same o u =
    let k = first_time raw jobs e f in
    let live = keep (is_unexpired raw.created_at) jobs in
    let m : is_message raw.message_id (as_pending raw) ≡ true =
      (eq_iff raw.message_id raw.message_id).1 refl in
    let g : find (is_message again.message_id)
          (keep (is_unexpired again.created_at) (live ++ (as_pending raw ∷ [])))
        ≡ some (as_pending raw) =
      rw same
        (find-none raw.message_id again.created_at (as_pending raw) live e m (ground arith)) in
    rw k.1 (again_lem again (as_pending raw) _ (ground arith) g)
