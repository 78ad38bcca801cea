-- ===== src/Cli/Outbound.antt =====
-- packages/cli/src/outbound-jobs.ts: the durable calls that an installation has sent.
pub mod Memory
use agentcall.Base.{
  ℕ, ◌+◌, Bool, true, false, not, ◌&&◌, ◌||◌, Option, none, some, String, List, [], ◌∷◌, ◌++◌, ◌==◌,
  if◌then◌else◌, leb, ltb, length, keep, find, any, string_eq,
}

abbrev pub max_outbound_jobs : ℕ
max_outbound_jobs = 1_000

pub data JobState : Type 0 where
  pending queued : JobState

-- `frame` is the JSON text of the encrypted request, by which frames are compared.
pub record OutboundJob : Type 0 where
  pub message_id : String
  pub relay : String
  pub address : String
  pub frame : String
  pub request_id : String
  pub request_transcript_hash : String
  pub recipient_identity_pub : String
  pub sender_epoch : ℕ
  pub created_at : ℕ
  pub expires_at : ℕ
  pub state : JobState
  pub task_id : Option String
  pub submitted_at : Option ℕ

pub data JobError : Type 0 where
  invalid_job bound_to_other store_full no_job duplicate_task : JobError

pub data JobResult : Type 0 where
  job : OutboundJob → JobResult
  failed : JobError → JobResult

abbrev pub is_message : String → OutboundJob → Bool
is_message id j = j.message_id == id

abbrev pub has_task : String → OutboundJob → Bool
has_task id j = elim j.task_id [ none ↦ false | some t ↦ t == id ]

abbrev pub is_unexpired : ℕ → OutboundJob → Bool
is_unexpired at j = ltb at j.expires_at

-- A new job as `OutboundJobSchema` leaves it: it must expire after its creation.
abbrev pub as_pending : OutboundJob → OutboundJob
as_pending j = record j { state = pending; task_id = none; submitted_at = none }

unfoldable pub remember_outbound_job : OutboundJob → List OutboundJob → List OutboundJob × JobResult
remember_outbound_job raw jobs =
    let candidate = as_pending raw in
    let live = keep (is_unexpired candidate.created_at) jobs in
    if not (ltb candidate.created_at candidate.expires_at)
    then (jobs, failed invalid_job)
    else elim (find (is_message candidate.message_id) live) [
      | some existing ↦
          if not (existing.frame == candidate.frame)
          then (jobs, failed bound_to_other)
          else (jobs, job existing)
      | none ↦
          if leb max_outbound_jobs (length live)
          then (jobs, failed store_full)
          else (live ++ (candidate ∷ []), job candidate)
    ]

pub record Receipt : Type 0 where
  pub task_id : String
  pub submitted_at : ℕ
  pub expires_at : ℕ

abbrev pub acknowledged : Receipt → OutboundJob → OutboundJob
acknowledged r j = record j {
  state = queued;
  task_id = some r.task_id;
  submitted_at = some r.submitted_at;
  expires_at = r.expires_at;
}

unfoldable pub replace_job : String → OutboundJob → List OutboundJob → List OutboundJob
replace_job id n [] = []
replace_job id n (j ∷ js) = if is_message id j then n ∷ js else j ∷ replace_job id n js

-- The job must still expire after its creation, and `save` refuses a task id of another job.
unfoldable pub acknowledge_outbound_job :
    String → Receipt → List OutboundJob → List OutboundJob × JobResult
acknowledge_outbound_job id r jobs = elim (find (is_message id) jobs) [
  | none ↦ (jobs, failed no_job)
  | some j ↦
      if not (ltb j.created_at r.expires_at)
      then (jobs, failed invalid_job)
      else if any (λ k. not (is_message id k) && has_task r.task_id k) jobs
      then (jobs, failed duplicate_task)
      else (replace_job id (acknowledged r j) jobs, job (acknowledged r j))
]

unfoldable pub find_outbound_job : String → String → List OutboundJob → Option OutboundJob
find_outbound_job address task_id jobs =
    find (λ j. (j.address == address) && has_task task_id j) jobs

unfoldable pub forget_outbound_job : String → List OutboundJob → List OutboundJob
forget_outbound_job id jobs = keep (λ j. not (is_message id j)) jobs
