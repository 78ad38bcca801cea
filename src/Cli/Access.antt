-- ===== src/Cli/Access.antt =====
-- packages/cli/src/access.ts and policy.ts: whom an installation answers, and with which task.
pub mod Laws
use agentcall.Base.{
  ℕ, suc, ◌+◌, Bool, true, false, not, Option, none, some, String, List, [], ◌∷◌, ◌==◌,
  if◌then◌else◌, ltb, length, keep, find, get_or, map, string_eq,
}
use agentcall.Base.Map.{lookup}

pub data Access : Type 0 where
  allowed blocked : Access

abbrev pub is_blocked : Access → Bool
is_blocked blocked = true
is_blocked allowed = false

abbrev pub same_access : Access → Access → Bool
same_access allowed allowed = true
same_access blocked blocked = true
same_access _ _ = false

pub record PolicyAssertion : Type 0 where
  pub caller : String
  pub expect_access : Access

-- `Policy`; a caller's entry is its optional `access`. `Object.hasOwn` finds an entry of the file
-- only.
pub record Policy : Type 0 where
  pub description : String
  pub default_access : Access
  pub callers : List (String × Option Access)
  pub offline_delivery : Bool
  pub tests : Option (List PolicyAssertion)

pub record Task : Type 0 where
  pub id : String
  pub name : String

abbrev pub max_card_blocked_callers : ℕ
max_card_blocked_callers = 200

abbrev pub default_policy : Policy
default_policy = record {
  description = "";
  default_access = allowed;
  callers = [];
  offline_delivery = false;
  tests = none;
}

unfoldable pub access_for : Policy → String → Access
access_for policy from = elim (lookup from policy.callers) [
  | none ↦ policy.default_access
  | some entry ↦ elim entry [ none ↦ policy.default_access | some access ↦ access ]
]

pub data PolicyError : Type 0 where
  too_many_blocked : ℕ → PolicyError
  assertion_failed : ℕ → String → Access → Access → PolicyError

pub data Checked : Type 0 where
  accepted : Policy → Checked
  refused : PolicyError → Checked

abbrev pub entry_is_blocked : String × Option Access → Bool
entry_is_blocked (_, none) = false
entry_is_blocked (_, some access) = is_blocked access

abbrev pub blocked_callers : Policy → List (String × Option Access)
blocked_callers policy = keep entry_is_blocked policy.callers

-- The first assertion that fails, counted from one.
unfoldable pub validate_policy_assertions : Policy → ℕ → List PolicyAssertion → Option PolicyError
validate_policy_assertions policy index [] = none
validate_policy_assertions policy index (a ∷ rest_of) =
    let rest = validate_policy_assertions policy (suc index) rest_of in
    let actual = access_for policy a.caller in
    if same_access actual a.expect_access
    then rest
    else some (assertion_failed (suc index) a.caller a.expect_access actual)

unfoldable pub validate_policy : Policy → Checked
validate_policy user =
    if ltb max_card_blocked_callers (length (blocked_callers user))
    then refused (too_many_blocked (length (blocked_callers user)))
    else elim (validate_policy_assertions user 0 (get_or user.tests [])) [
      | none ↦ accepted user
      | some error ↦ refused error
    ]

-- A policy file: missing, unreadable or malformed, or the policy in it.
pub data PolicyFile : Type 0 where
  absent broken : PolicyFile
  parsed : Policy → PolicyFile

-- `loadPolicy`: `none` where it throws, before or in the validation.
unfoldable pub load_policy : PolicyFile → Option Policy
load_policy absent = elim (validate_policy default_policy) [
  | accepted p ↦ some p
  | refused _ ↦ none
]
load_policy broken = none
load_policy (parsed user) = elim (validate_policy user) [ accepted p ↦ some p | refused _ ↦ none ]

pub data TaskResolution : Type 0 where
  resolved : Option Task → TaskResolution
  call_blocked : TaskResolution
  task_unknown : List String → TaskResolution

abbrev pub has_id : String → Task → Bool
has_id id t = t.id == id

-- A call that names no task is for the built-in `ask`; `!` asserts that it is there.
unfoldable pub resolve_task : Policy → List Task → String → Option String → TaskResolution
resolve_task policy tasks from requested =
    if is_blocked (access_for policy from) then call_blocked else elim requested [
      | none ↦ resolved (find (has_id "ask") tasks)
      | some id ↦ elim (find (has_id id) tasks) [
        | none ↦ task_unknown (map (λ t. t.id) tasks)
        | some task ↦ resolved (some task)
      ]
    ]
