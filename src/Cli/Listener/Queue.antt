-- ===== src/Cli/Listener/Queue.antt =====
-- packages/cli/src/queue.ts: `SerialQueue`. Between two turns of the event loop a job runs or the
-- queue is idle, so `active` is that a job runs; its promise settles in a step of its own. The
-- resolvers of `onIdle` are counted.
pub mod Line
use agentcall.Base.{
  ℕ, suc, ◌+◌, Bool, true, false, not, ◌&&◌, Option, none, some, String, List, [], ◌∷◌, ◌++◌, leb,
  if◌then◌else◌, length, is_some, string_eq, ◌==◌,
}

pub record SerialQueue : Type 0 where
  pub jobs : List String
  pub running_key : Option String
  pub aborted : Bool
  pub closed : Bool
  pub waiting : ℕ

abbrev pub empty_queue : SerialQueue
empty_queue = record { jobs = []; running_key = none; aborted = false; closed = false; waiting = 0 }

pub data Canceled : Type 0 where
  pending running unknown : Canceled

-- `drain`, from where its loop tests for jobs: the next job starts, or all who wait are released.
unfoldable pub next_job : SerialQueue → List String → SerialQueue
next_job q [] = record q { jobs = []; running_key = none; aborted = false; waiting = 0 }
next_job q (key ∷ jobs) = record q { jobs = jobs; running_key = some key; aborted = false }

unfoldable pub try_enqueue : ℕ → String → SerialQueue → SerialQueue × Bool
try_enqueue max_pending key q =
    let jobs = q.jobs ++ key ∷ [] in
    if q.closed
    then (q, false)
    else if is_some q.running_key && leb max_pending (length q.jobs)
    then (q, false)
    else if is_some q.running_key
    then (record q { jobs = jobs }, true)
    else (next_job q jobs, true)

-- The job's promise settles, by its end or by an error.
unfoldable pub settle : SerialQueue → SerialQueue
settle q = elim q.running_key [ none ↦ q | some _ ↦ next_job q q.jobs ]

-- `findIndex` and `splice`: the first job of the key is taken out.
unfoldable pub take_out : String → List String → Option (List String)
take_out key [] = none
take_out key (job ∷ jobs) =
    let rest = take_out key jobs in
    if job == key then some jobs else elim rest [ none ↦ none | some left ↦ some (job ∷ left) ]

abbrev pub is_running : String → Option String → Bool
is_running key none = false
is_running key (some active) = active == key

unfoldable pub cancel : String → SerialQueue → SerialQueue × Canceled
cancel key q = elim (take_out key q.jobs) [
  | some jobs ↦ (record q { jobs = jobs }, pending)
  | none ↦
      if is_running key q.running_key then (record q { aborted = true }, running) else (q, unknown)
]

-- `onIdle`: whether the promise is resolved at once.
unfoldable pub on_idle : SerialQueue → SerialQueue × Bool
on_idle q = elim q.running_key [
  | some _ ↦ (record q { waiting = q.waiting + 1 }, false)
  | none ↦ elim q.jobs [ [] ↦ (q, true) | _ ∷ _ ↦ (record q { waiting = q.waiting + 1 }, false) ]
]

unfoldable pub stop : SerialQueue → SerialQueue × Bool
stop q = on_idle (record q { closed = true; jobs = []; aborted = is_some q.running_key })
