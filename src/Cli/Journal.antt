-- ===== src/Cli/Journal.antt =====
-- packages/cli/src/execution-journal.ts: which calls an installation has begun to execute.
pub mod Once
use agentcall.Base.{
  ℕ, ◌+◌, ◌*◌, Bool, true, false, not, ◌&&◌, Option, none, some, String, List, [], ◌∷◌, ◌++◌, ◌==◌,
  if◌then◌else◌, leb, ltb, length, keep, find, string_eq,
}

abbrev pub max_execution_records : ℕ
max_execution_records = 1_000

-- `MAILBOX_TTL_MS + MAILBOX_TOMBSTONE_TTL_MS`
abbrev pub record_ttl_ms : ℕ
record_ttl_ms = 72 * 60 * 60_000 + 24 * 60 * 60_000

pub data ExecutionState : Type 0 where
  claimed started terminal : ExecutionState

pub record ExecutionRecord : Type 0 where
  pub call_id : String
  pub request_envelope_sha256 : String
  pub state : ExecutionState
  pub updated_at : ℕ
  pub purge_after : ℕ

pub data Decision : Type 0 where
  execute conflict indeterminate already_terminal : Decision

pub data JournalError : Type 0 where
  full missing ciphertext_conflict wrong_state : JournalError

pub data Outcome : Type 0 where
  done : Outcome
  decided : Decision → ExecutionState → Outcome
  failed : JournalError → Outcome

abbrev pub is_call : String → ExecutionRecord → Bool
is_call id r = r.call_id == id

abbrev pub is_kept : ℕ → ExecutionRecord → Bool
is_kept now r = ltb now r.purge_after

abbrev pub is_claimed : ExecutionState → Bool
is_claimed claimed = true
is_claimed _ = false

abbrev pub is_terminal : ExecutionState → Bool
is_terminal terminal = true
is_terminal _ = false

abbrev pub decide : String → ExecutionRecord → Outcome
decide digest r =
    if r.request_envelope_sha256 == digest
    then elim r.state [
      | claimed ↦ decided execute claimed
      | started ↦ decided indeterminate started
      | terminal ↦ decided already_terminal terminal
    ]
    else decided conflict r.state

abbrev pub claim_record : ℕ → String → String → ExecutionRecord
claim_record now id digest = record {
  call_id = id;
  request_envelope_sha256 = digest;
  state = claimed;
  updated_at = now;
  purge_after = now + record_ttl_ms;
}

-- Only a new claim is saved, with the records that are over dropped.
unfoldable pub claim_execution :
    String → String → ℕ → List ExecutionRecord → List ExecutionRecord × Outcome
claim_execution id digest now records =
    let live = keep (is_kept now) records in
    elim (find (is_call id) live) [
      | some existing ↦ (records, decide digest existing)
      | none ↦
          if leb max_execution_records (length live)
          then (records, failed full)
          else (live ++ (claim_record now id digest ∷ []), decided execute claimed)
    ]

-- `records[index] = …` at the first record of the call
unfoldable pub replace_first :
    String → ExecutionRecord → List ExecutionRecord → List ExecutionRecord
replace_first id r [] = []
replace_first id r (x ∷ xs) = if is_call id x then r ∷ xs else x ∷ replace_first id r xs

abbrev pub may_become : ExecutionState → ExecutionState → Bool
may_become from started = is_claimed from
may_become from terminal = not (is_terminal from)
may_become from claimed = false

unfoldable pub transition :
    ExecutionState → String → String → ℕ → List ExecutionRecord → List ExecutionRecord × Outcome
transition target id digest now records = elim (find (is_call id) records) [
  | none ↦ (records, failed missing)
  | some r ↦
      if not (r.request_envelope_sha256 == digest)
      then (records, failed ciphertext_conflict)
      else if not (may_become r.state target)
      then (records, failed wrong_state)
      else (replace_first id (record r { state = target; updated_at = now }) records, done)
]

abbrev pub mark_execution_started :
    String → String → ℕ → List ExecutionRecord → List ExecutionRecord × Outcome
mark_execution_started = transition started

abbrev pub mark_execution_terminal :
    String → String → ℕ → List ExecutionRecord → List ExecutionRecord × Outcome
mark_execution_terminal = transition terminal
