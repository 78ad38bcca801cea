-- ===== src/Cli/Journal/Once.antt =====
-- A call is executed at most once.
use agentcall.Base.{
  ℕ, ◌<◌, ◌≡◌, ◌≢◌, true, false, not, Option, none, some, String, List, [], ◌∷◌, ◌++◌, ◌==◌,
  if◌then◌else◌, leb, length, keep, find, string_eq, arith, eq_iff, refl, sym, ap, ◌∙◌, inl, inr,
  Option-cases, Bool-cases,
}
use agentcall.Cli.Journal.{
  ExecutionRecord, ExecutionState, claimed, started, terminal, Outcome, done, decided, execute,
  is_call, is_kept, is_claimed, claim_execution, transition, replace_first, claim_record, decide,
  may_become, max_execution_records, mark_execution_started,
}

-- What happens to a journal: a claim, or the mark of a start or an end, of any call.
pub data Event : Type 0 where
  claims starts ends : String → String → ℕ → Event

abbrev pub time_of : Event → ℕ
time_of (claims _ _ now) = now
time_of (starts _ _ now) = now
time_of (ends _ _ now) = now

pub apply : Event → List ExecutionRecord → List ExecutionRecord × Outcome
apply (claims id digest now) records = claim_execution id digest now records
apply (starts id digest now) records = transition started id digest now records
apply (ends id digest now) records = transition terminal id digest now records

-- The call has a record that is no longer a mere claim, kept up to the given time.
pub record Begun (id : String) (until : ℕ) (records : List ExecutionRecord) : Type 0 where
  pub entry : ExecutionRecord
  pub found : find (is_call id) records ≡ some entry
  pub begun : is_claimed entry.state ≡ false
  pub kept : entry.purge_after ≡ until

find-keep :
    (id : String) (now : ℕ) (r : ExecutionRecord) (records : List ExecutionRecord)
    → find (is_call id) records ≡ some r
    → is_kept now r ≡ true
    → find (is_call id) (keep (is_kept now) records) ≡ some r
find-keep id now r [] e k = e
find-keep id now r (x ∷ xs) e k = ground (arith, find-keep id now r xs)

find_append :
    (id : String) (r : ExecutionRecord) (xs ys : List ExecutionRecord)
    → find (is_call id) xs ≡ some r
    → find (is_call id) (xs ++ ys) ≡ some r
find_append id r [] ys e = ground (arith, e)
find_append id r (x ∷ xs) ys e = ground (arith, find_append id r xs ys)

find_call :
    (id : String) (r : ExecutionRecord) (xs : List ExecutionRecord)
    → find (is_call id) xs ≡ some r
    → is_call id r ≡ true
find_call id r [] e = ground (arith, e)
find_call id r (x ∷ xs) e = ground (arith, find_call id r xs)

find_replace :
    (id j : String) (r n : ExecutionRecord) (xs : List ExecutionRecord)
    → find (is_call j) xs ≡ some r
    → is_call j n ≡ true
    → find (is_call id) (replace_first j n xs) ≡ (if j == id then some n else find (is_call id) xs)
unfolding replace_first
find_replace id j r n [] e k = ground (arith, e)
find_replace id j r n (x ∷ xs) e k = ground (
  arith,
  eq_iff j id,
  eq_iff x.call_id j,
  eq_iff x.call_id id,
  eq_iff n.call_id j,
  eq_iff n.call_id id,
  find_replace id j r n xs,
)

keep-kept :
    (id : String) (until now : ℕ) (r : ExecutionRecord)
    → r.purge_after ≡ until
    → now < until
    → is_kept now r ≡ true
keep-kept id until now r e o = ground arith

claim_execution-Begun :
    (j digest : String) (now : ℕ) (id : String) (until : ℕ) (records : List ExecutionRecord)
    → now < until
    → Begun id until records
    → Begun id until (claim_execution j digest now records).0
unfolding claim_execution
claim_execution-Begun j digest now id until records o b =
    let live = keep (is_kept now) records in
    let f = find-keep id now b.entry records b.found (keep-kept id until now b.entry b.kept o) in
    elim (Option-cases (find (is_call j) live)) [
      | inr (_, e) ↦ rw (e, claim_execution) b
      | inl e ↦ elim (Bool-cases (leb max_execution_records (length live))) [
        | inl h ↦ rw (e, h, claim_execution) b
        | inr h ↦
            rw (e, h, claim_execution)
              (record {
                entry = b.entry;
                found = find_append id b.entry live (claim_record now j digest ∷ []) f;
                begun = b.begun;
                kept = b.kept;
              })
      ]
    ]

target-begun :
    (from target : ExecutionState) → may_become from target ≡ true → is_claimed target ≡ false
target-begun from started e = refl
target-begun from terminal e = refl
target-begun from claimed e = ground (arith, e)

purge_after_of : Option ExecutionRecord → ℕ
purge_after_of none = 0
purge_after_of (some r) = r.purge_after

same_entry :
    (j id : String) (r e : ExecutionRecord) (records : List ExecutionRecord)
    → (j == id) ≡ true
    → find (is_call j) records ≡ some r
    → find (is_call id) records ≡ some e
    → r.purge_after ≡ e.purge_after
unfolding purge_after_of
same_entry j id r e records d f g =
    ap purge_after_of (sym f ∙ ap (λ i. find (is_call i) records) ((eq_iff j id).0 d) ∙ g)

transition-Begun :
    (target : ExecutionState) (j digest : String) (now : ℕ) (id : String) (until : ℕ)
    (records : List ExecutionRecord)
    → Begun id until records
    → Begun id until (transition target j digest now records).0
unfolding transition
transition-Begun target j digest now id until records b =
    elim (Option-cases (find (is_call j) records)) [
      | inl e ↦ rw (e, transition) b
      | inr (r, e) ↦ elim (Bool-cases (not (r.request_envelope_sha256 == digest))) [
        | inl h ↦ rw (e, h, transition) b
        | inr h ↦ elim (Bool-cases (not (may_become r.state target))) [
          | inl g ↦ rw (e, h, g, transition) b
          | inr g ↦
              let n = record r { state = target; updated_at = now } in
              let k = find_replace id j r n records e (find_call j r records e) in
              let t = target-begun r.state target (ground arith) in
              rw (e, h, g, transition)
                (elim (Bool-cases (j == id)) [
                  | inr d ↦ record {
                    entry = b.entry;
                    found = k ∙ rw d b.found;
                    begun = b.begun;
                    kept = b.kept;
                  }
                  | inl d ↦ record {
                    entry = n;
                    found = k ∙ rw d refl;
                    begun = t;
                    kept = same_entry j id r b.entry records d e b.found ∙ b.kept;
                  }
                ])
        ]
      ]
    ]

unfoldable pub run : List Event → List ExecutionRecord → List ExecutionRecord
run [] records = records
run (e ∷ es) records = run es (apply e records).0

-- All of them happen before the given time.
unfoldable pub AllBefore : ℕ → List Event → Type 0
AllBefore until [] = Unit
AllBefore until (e ∷ es) = (time_of e < until) × AllBefore until es

apply-Begun :
    (e : Event) (id : String) (until : ℕ) (records : List ExecutionRecord)
    → time_of e < until
    → Begun id until records
    → Begun id until (apply e records).0
unfolding apply
apply-Begun (claims j digest now) id until records o b =
    claim_execution-Begun j digest now id until records o b
apply-Begun (starts j digest now) id until records o b =
    transition-Begun started j digest now id until records b
apply-Begun (ends j digest now) id until records o b =
    transition-Begun terminal j digest now id until records b

run-Begun :
    (es : List Event) (id : String) (until : ℕ) (records : List ExecutionRecord)
    → AllBefore until es
    → Begun id until records
    → Begun id until (run es records)
unfolding run AllBefore
run-Begun [] id until records o b = b
run-Begun (e ∷ es) id until records (o, os) b =
    run-Begun es id until _ os (apply-Begun e id until records o b)

decide-begun :
    (digest : String) (r : ExecutionRecord)
    → is_claimed r.state ≡ false
    → decide digest r ≢ decided execute claimed
decide-begun digest r b e = ground (arith, e)

Begun-claim_execution :
    (id digest : String) (now until : ℕ) (records : List ExecutionRecord)
    → now < until
    → Begun id until records
    → (claim_execution id digest now records).1 ≢ decided execute claimed
unfolding claim_execution
Begun-claim_execution id digest now until records o b =
    let f = find-keep id now b.entry records b.found (keep-kept id until now b.entry b.kept o) in
    rw (f, claim_execution) (decide-begun digest b.entry b.begun)

mark_execution_started-Begun :
    (id digest : String) (now : ℕ) (records : List ExecutionRecord) (r : ExecutionRecord)
    → find (is_call id) records ≡ some r
    → (mark_execution_started id digest now records).1 ≡ done
    → Begun id r.purge_after (mark_execution_started id digest now records).0
unfolding transition
mark_execution_started-Begun id digest now records r e =
    elim (Bool-cases (not (r.request_envelope_sha256 == digest))) [
      | inl h ↦ rw (e, h, transition) (λ d. ground (arith, d))
      | inr h ↦ elim (Bool-cases (not (may_become r.state started))) [
        | inl g ↦ rw (e, h, g, transition) (λ d. ground (arith, d))
        | inr g ↦
            let n = record r { state = started; updated_at = now } in
            let k = find_replace id id r n records e (find_call id r records e) in
            let i : (id == id) ≡ true = (eq_iff id id).1 refl in
            rw (e, h, g, transition)
              (λ d. record { entry = n; found = k ∙ rw i refl; begun = refl; kept = refl })
      ]
    ]

-- Once the start of a call is recorded, no claim of that call is told to execute it, with whatever
-- digest, after any sequence of claims, starts and ends of any calls, as long as the record is kept.
pub mark_execution_started-claim_execution :
    (id digest again : String) (now later : ℕ) (records : List ExecutionRecord)
    (r : ExecutionRecord) (es : List Event)
    → find (is_call id) records ≡ some r
    → (mark_execution_started id digest now records).1 ≡ done
    → AllBefore r.purge_after es
    → later < r.purge_after
    → (claim_execution id again later (run es (mark_execution_started id digest now records).0)).1
      ≢ decided execute claimed
mark_execution_started-claim_execution id digest again now later records r es e d os o =
    Begun-claim_execution id again later r.purge_after _ o (
      run-Begun es id r.purge_after _ os (mark_execution_started-Begun id digest now records r e d))
