-- ===== src/Cli/Listener/Queue/Line.antt =====
-- packages/cli/src/queue.ts: the queue is a waiting line. The job at its head runs, one at a time,
-- and the others start in the order in which they were taken.
use agentcall.Base.{
  ℕ, ◌≤◌, ◌<◌, Bool, true, false, Option, none, some, String, List, [], ◌∷◌, ◌++◌, leb, length,
  string_eq, ◌==◌, ◌≡◌, refl, ap, arith, inl, inr, Option-cases, Bool-cases, length-append, eq_iff,
  any, take,
}
use mathlib.Core.List.{tail}
use agentcall.Cli.Listener.Queue.{
  SerialQueue, cancel, is_running, next_job, on_idle, settle, stop, take_out, try_enqueue,
}

-- What is asked of the queue, and a job's end.
pub data Request : Type 0 where
  enqueue withdraw : String → Request
  ended close await : Request

unfoldable pub step : ℕ → SerialQueue → Request → SerialQueue
step n q (enqueue key) = (try_enqueue n key q).0
step n q (withdraw key) = (cancel key q).0
step n q ended = settle q
step n q close = (stop q).0
step n q await = (on_idle q).0

-- The jobs of the queue, the running one first.
abbrev pub running_first : Option String → List String → List String
running_first none jobs = jobs
running_first (some key) jobs = key ∷ jobs

abbrev pub line : SerialQueue → List String
line q = running_first q.running_key q.jobs

-- What a waiting line of which the head is served does on each request; `true` is that it is closed.
-- A job joins at the end just if the line is open and holds at most `n`; the head leaves when it
-- ends; a withdrawn job is taken out from behind the head, if it stands there; and the line that
-- closes keeps its head and nothing else.
pub data Move (n : ℕ) : Request → Bool → List String → Bool → List String → Type 0 where
  join :
      {l m : List String} (key : String)
      → length l ≤ n
      → m ≡ l ++ key ∷ []
      → Move n (enqueue key) false l false m
  full : {c : Bool} {l : List String} (key : String) → n < length l → Move n (enqueue key) c l c l
  shut : {l : List String} (key : String) → Move n (enqueue key) true l true l
  leave : {c : Bool} {l : List String} (key : String) → Move n ended c (key ∷ l) c l
  idle : {c : Bool} {l : List String} → l ≡ [] → Move n ended c l c l
  give_up :
      {c : Bool} {l m : List String} (before after : List String) (key : String)
      → l ≡ before ++ key ∷ after
      → 0 < length before
      → m ≡ before ++ after
      → Move n (withdraw key) c l c m
  absent :
      {c : Bool} {l : List String} (key : String)
      → any (λ job. job == key) (tail l) ≡ false
      → Move n (withdraw key) c l c l
  clear : {c : Bool} {l m : List String} → m ≡ take 1 l → Move n close c l true m
  wait : {c : Bool} {l : List String} → Move n await c l c l

-- No job waits while none runs, and no more wait than may.
pub record IsSound (n : ℕ) (q : SerialQueue) : Type 0 where
  pub busy : q.running_key ≡ none → q.jobs ≡ []
  pub bounded : length q.jobs ≤ n

module _ (n : ℕ) where
  take_out_lem :
      (key : String) (jobs : List String) {left : List String}
      → take_out key jobs ≡ some left
      → (before after : List String) × (jobs ≡ before ++ key ∷ after) × (left ≡ before ++ after)
  unfolding take_out
  take_out_lem key [] h = absurd (ground arith)
  take_out_lem key (job ∷ jobs) h = elim (Bool-cases (job == key)) [
    | inl e ↦ ([], jobs, ground (arith, eq_iff job key), ground arith)
    | inr e ↦ elim (Option-cases (take_out key jobs)) [
      | inl f ↦ absurd (ground arith)
      | inr (rest, f) ↦
          let (before, after, whole, parts) = take_out_lem key jobs f in
          (job ∷ before, after, ap (λ l. job ∷ l) whole, ground arith)
    ]
  ]

  take_out-none :
      (key : String) (jobs : List String)
      → take_out key jobs ≡ none
      → any (λ job. job == key) jobs ≡ false
  unfolding take_out
  take_out-none key [] h = refl
  take_out-none key (job ∷ jobs) h = ground (arith, take_out-none key jobs)

  abbrev Goes : Request → SerialQueue → SerialQueue → Type 0
  Goes r q p = IsSound n p × Move n r q.closed (line q) p.closed (line p)

  module _ (aborted closed : Bool) (waiting : ℕ) where
    abbrev queue : Option String → List String → SerialQueue
    queue key jobs = record {
      jobs = jobs;
      running_key = key;
      aborted = aborted;
      closed = closed;
      waiting = waiting;
    }

    settle-Goes :
        (key : Option String) (jobs : List String)
        → IsSound n (queue key jobs)
        → Goes ended (queue key jobs) (settle (queue key jobs))
    unfolding settle next_job
    settle-Goes none jobs s = (s, idle (s.busy refl))
    settle-Goes (some key) [] s = (record { busy = λ e. refl; bounded = ground arith }, leave key)
    settle-Goes (some key) (job ∷ jobs) s = (
      record { busy = λ e. absurd (ground arith); bounded = omega (arith, s.bounded) },
      leave key,
    )

    on_idle-Goes :
        (key : Option String) (jobs : List String)
        → IsSound n (queue key jobs)
        → Goes await (queue key jobs) (on_idle (queue key jobs)).0
    unfolding on_idle
    on_idle-Goes none [] s = (s, wait)
    on_idle-Goes none (job ∷ jobs) s = (record { busy = s.busy; bounded = s.bounded }, wait)
    on_idle-Goes (some key) jobs s = (record { busy = s.busy; bounded = s.bounded }, wait)

    stop-Goes :
        (key : Option String) (jobs : List String)
        → IsSound n (queue key jobs)
        → Goes close (queue key jobs) (stop (queue key jobs)).0
    unfolding stop on_idle
    stop-Goes none jobs s =
        (record { busy = λ e. refl; bounded = ground arith }, clear (rw (s.busy refl) refl))
    stop-Goes (some key) jobs s = (record { busy = λ e. refl; bounded = ground arith }, clear refl)

  module _ (aborted : Bool) (waiting : ℕ) (name : String) where
    abbrev opened_queue : Option String → List String → SerialQueue
    opened_queue = queue aborted false waiting

    room_for :
        (key : String) (jobs : List String)
        → IsSound n (opened_queue (some key) jobs)
        → Goes
            (enqueue name)
            (opened_queue (some key) jobs)
            (try_enqueue n name (opened_queue (some key) jobs)).0
    unfolding try_enqueue
    room_for key jobs s = elim (Bool-cases (leb n (length jobs))) [
      | inl over ↦ rw over (s, full name (ground arith))
      | inr free ↦ rw free (
        record {
          busy = λ e. absurd (ground arith);
          bounded = ground (arith, length-append jobs (name ∷ []));
        },
        join name (ground arith) refl,
      )
    ]

    enqueue-Goes :
        (closed : Bool) (key : Option String) (jobs : List String)
        → IsSound n (queue aborted closed waiting key jobs)
        → Goes
            (enqueue name)
            (queue aborted closed waiting key jobs)
            (try_enqueue n name (queue aborted closed waiting key jobs)).0
    unfolding try_enqueue next_job
    enqueue-Goes true key jobs s = (s, shut name)
    enqueue-Goes false (some key) jobs s = room_for key jobs s
    enqueue-Goes false none [] s =
        (record { busy = λ e. refl; bounded = omega arith }, join name (omega arith) refl)
    enqueue-Goes false none (job ∷ jobs) s = absurd (ground (arith, s.busy refl))

    taken_out-Goes :
        (closed : Bool) (key : Option String) (jobs left before after : List String)
        → IsSound n (queue aborted closed waiting key jobs)
        → jobs ≡ before ++ name ∷ after
        → left ≡ before ++ after
        → Goes
            (withdraw name)
            (queue aborted closed waiting key jobs)
            (queue aborted closed waiting key left)
    taken_out-Goes closed none jobs left before after s whole parts =
        absurd (ground (arith, s.busy refl, length-append before (name ∷ after)))
    taken_out-Goes closed (some key) jobs left before after s whole parts = (
      record {
        busy = λ e. absurd (ground arith);
        bounded = omega (
          arith,
          s.bounded,
          ap length whole,
          ap length parts,
          length-append before (name ∷ after),
          length-append before after,
        );
      },
      give_up (key ∷ before) after name (ap (λ l. key ∷ l) whole) (omega arith)
          (ap (λ l. key ∷ l) parts),
    )

    behind :
        (closed : Bool) (key : Option String) (jobs : List String)
        → IsSound n (queue aborted closed waiting key jobs)
        → take_out name jobs ≡ none
        → any (λ job. job == name) (tail (running_first key jobs)) ≡ false
    behind closed (some key) jobs s e = take_out-none name jobs e
    behind closed none jobs s e = rw (s.busy refl) refl

    cancel-Goes :
        (closed : Bool) (key : Option String) (jobs : List String)
        → IsSound n (queue aborted closed waiting key jobs)
        → Goes
            (withdraw name)
            (queue aborted closed waiting key jobs)
            (cancel name (queue aborted closed waiting key jobs)).0
    unfolding cancel
    cancel-Goes closed key jobs s = elim (Option-cases (take_out name jobs)) [
      | inr (left, e) ↦
          let (before, after, whole, parts) = take_out_lem name jobs e in
          rw (e, cancel) (taken_out-Goes closed key jobs left before after s whole parts)
      | inl e ↦ elim (Bool-cases (is_running name key)) [
        | inl f ↦
            rw (e, f, cancel)
              (
                record { busy = s.busy; bounded = s.bounded },
                absent name (behind closed key jobs s e),
              )
        | inr f ↦ rw (e, f, cancel) (s, absent name (behind closed key jobs s e))
      ]
    ]

  -- The queue refines the waiting line: whatever is asked of it, its jobs, with the running one
  -- first, make one move of the line. So at most one job runs, the next to run is the one that has
  -- waited longest of those not withdrawn, the running job stays at the head until it ends, a withdrawal
  -- and the closing included, at most `n` jobs wait, and nothing joins once the queue is closed. No job waits while none runs.
  pub step-Move :
      (q : SerialQueue) (r : Request)
      → IsSound n q
      → IsSound n (step n q r) × Move n r q.closed (line q) (step n q r).closed (line (step n q r))
  unfolding step
  step-Move q (enqueue key) s = enqueue-Goes q.aborted q.waiting key q.closed q.running_key q.jobs s
  step-Move q (withdraw key) s = cancel-Goes q.aborted q.waiting key q.closed q.running_key q.jobs s
  step-Move q ended s = settle-Goes q.aborted q.closed q.waiting q.running_key q.jobs s
  step-Move q close s = stop-Goes q.aborted q.closed q.waiting q.running_key q.jobs s
  step-Move q await s = on_idle-Goes q.aborted q.closed q.waiting q.running_key q.jobs s
