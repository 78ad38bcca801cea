-- ===== src/Cli/Access/Laws.antt =====
-- What a policy that was accepted promises.
use agentcall.Base.{
  ℕ, suc, ◌≤◌, ◌≡◌, true, false, Option, none, some, String, List, [], ◌∷◌, arith, refl, sym, ap,
  ◌∙◌, Bool-cases, Option-cases, inl, inr, length, find, get_or, All, ltb, string_eq, ◌==◌, any,
  subst, eq_iff, ◌⊎◌,
}
use agentcall.Cli.Access.{
  Access, allowed, blocked, is_blocked, same_access, Policy, PolicyAssertion, Task, PolicyFile,
  absent, broken, parsed, access_for, validate_policy, validate_policy_assertions, blocked_callers,
  load_policy, default_policy, max_card_blocked_callers, Checked, accepted, refused, TaskResolution,
  resolved, call_blocked, resolve_task, has_id, PolicyError,
}

-- Every assertion of the list holds of the policy.
abbrev pub IsAsserted : Policy → List PolicyAssertion → Type 0
IsAsserted policy tests = All (λ a. access_for policy a.caller ≡ a.expect_access) tests

same_access→≡ : (a b : Access) → same_access a b ≡ true → a ≡ b
same_access→≡ allowed allowed e = refl
same_access→≡ blocked blocked e = refl
same_access→≡ allowed blocked e = ground (arith, e)
same_access→≡ blocked allowed e = ground (arith, e)

assertions-IsAsserted :
    (policy : Policy) (index : ℕ) (tests : List PolicyAssertion)
    → validate_policy_assertions policy index tests ≡ none
    → IsAsserted policy tests
unfolding validate_policy_assertions
assertions-IsAsserted policy index [] = λ e. tt
assertions-IsAsserted policy index (a ∷ tests) =
    elim (Bool-cases (same_access (access_for policy a.caller) a.expect_access)) [
      | inl h ↦
          rw (h, validate_policy_assertions)
            (λ e. (
              same_access→≡ (access_for policy a.caller) a.expect_access h,
              assertions-IsAsserted policy (suc index) tests e,
            ))
      | inr h ↦ rw (h, validate_policy_assertions) (λ e. ground (arith, e))
    ]

-- What a policy in force satisfies.
pub record IsEnforceable (policy : Policy) : Type 0 where
  pub asserted : IsAsserted policy (get_or policy.tests [])
  pub publishable : length (blocked_callers policy) ≤ max_card_blocked_callers

checked_policy : Policy → Checked → Policy
checked_policy d (accepted p) = p
checked_policy d (refused _) = d

validate_policy-IsEnforceable :
    (user policy : Policy) → validate_policy user ≡ accepted policy → IsEnforceable policy
unfolding validate_policy checked_policy
validate_policy-IsEnforceable user policy =
    elim (Bool-cases (ltb max_card_blocked_callers (length (blocked_callers user)))) [
      | inl h ↦ rw (h, validate_policy) (λ e. ground (arith, e))
      | inr h ↦ elim (Option-cases (validate_policy_assertions user 0 (get_or user.tests []))) [
        | inr (_, g) ↦ rw (h, g, validate_policy) (λ e. ground (arith, e))
        | inl g ↦
            rw (h, g, validate_policy)
              (λ e. subst IsEnforceable (ap (checked_policy user) e) (record {
                asserted = assertions-IsAsserted user 0 (get_or user.tests []) g;
                publishable = ground arith;
              }))
      ]
    ]

Checked-cases :
    (c : Checked) → ((p : Policy) × (c ≡ accepted p)) ⊎ ((e : PolicyError) × (c ≡ refused e))
Checked-cases (accepted p) = inl (p, refl)
Checked-cases (refused e) = inr (e, refl)

-- Whatever stands in the policy file, a policy that comes into force satisfies each of its own
-- assertions and blocks no more callers than can be published.
pub load_policy-IsEnforceable :
    (file : PolicyFile) (policy : Policy) → load_policy file ≡ some policy → IsEnforceable policy
unfolding load_policy
load_policy-IsEnforceable broken policy = λ e. ground (arith, e)
load_policy-IsEnforceable absent policy = elim (Checked-cases (validate_policy default_policy)) [
  | inl (p, h) ↦
      rw (h, load_policy)
        (λ e.
          subst IsEnforceable (ap (λ o. get_or o p) e)
            (validate_policy-IsEnforceable default_policy p h))
  | inr (_, h) ↦ rw (h, load_policy) (λ e. ground (arith, e))
]
load_policy-IsEnforceable (parsed user) policy = elim (Checked-cases (validate_policy user)) [
  | inl (p, h) ↦
      rw (h, load_policy)
        (λ e. subst IsEnforceable (ap (λ o. get_or o p) e) (validate_policy-IsEnforceable user p h))
  | inr (_, h) ↦ rw (h, load_policy) (λ e. ground (arith, e))
]

-- What an answer to a caller must satisfy.
pub record IsResolution (policy : Policy) (tasks : List Task) (from : String)
    (requested : Option String) (r : TaskResolution) : Type 0 where
  pub silent : is_blocked (access_for policy from) ≡ true → r ≡ call_blocked
  pub permitted : (t : Task) → r ≡ resolved (some t) → is_blocked (access_for policy from) ≡ false
  pub asked : (t : Task) → r ≡ resolved (some t) → (t.id == get_or requested "ask") ≡ true
  pub offered : (t : Task) → r ≡ resolved (some t) → any (λ u. u.id == t.id) tasks ≡ true

find_id :
    (id : String) (tasks : List Task) (t : Task)
    → find (has_id id) tasks ≡ some t
    → ((t.id == id) ≡ true) × (any (λ u. u.id == t.id) tasks ≡ true)
find_id id [] t e = ground (arith, e)
find_id id (u ∷ tasks) t e =
    ground (arith, find_id id tasks t, eq_iff u.id u.id, eq_iff t.id t.id, eq_iff t.id id)

task_of : TaskResolution → Option Task
task_of (resolved o) = o
task_of _ = none

given-IsResolution :
    (policy : Policy) (tasks : List Task) (from : String) (requested : Option String)
    → is_blocked (access_for policy from) ≡ false
    → IsResolution policy tasks from requested
        (resolved (find (has_id (get_or requested "ask")) tasks))
unfolding task_of
given-IsResolution policy tasks from requested h =
    let id = get_or requested "ask" in
    record {
      silent = λ b. ground (arith, sym h ∙ b);
      permitted = λ t e. h;
      asked = λ t e. (find_id id tasks t (ap task_of e)).0;
      offered = λ t e. (find_id id tasks t (ap task_of e)).1;
    }

-- What a caller is told is independent of the tasks and of the request when the caller is blocked;
-- a task that is given to a caller is one of the tasks, has the id that was asked for, or `ask`
-- where none was, and its caller is not blocked.
pub resolve_task-IsResolution :
    (policy : Policy) (tasks : List Task) (from : String) (requested : Option String)
    → IsResolution policy tasks from requested (resolve_task policy tasks from requested)
unfolding resolve_task task_of
resolve_task-IsResolution policy tasks from requested =
    elim (Bool-cases (is_blocked (access_for policy from))) [
      | inl h ↦
          rw (h, resolve_task)
            (record {
              silent = λ b. refl;
              permitted = λ t e. ground (arith, ap task_of e);
              asked = λ t e. ground (arith, ap task_of e);
              offered = λ t e. ground (arith, ap task_of e);
            })
      | inr h ↦ elim (Option-cases requested) [
        | inl n ↦
            let k = given-IsResolution policy tasks from requested h in
            rw (h, n, resolve_task)
              (subst
                (λ r.
                  IsResolution policy tasks from r
                    (resolved (find (has_id (get_or r "ask")) tasks)))
                n k)
        | inr (id, n) ↦ elim (Option-cases (find (has_id id) tasks)) [
          | inl m ↦
              rw (h, n, m, resolve_task)
                (record {
                  silent = λ b. ground (arith, sym h ∙ b);
                  permitted = λ t e. h;
                  asked = λ t e. ground (arith, ap task_of e);
                  offered = λ t e. ground (arith, ap task_of e);
                })
          | inr (t, m) ↦
              let k = given-IsResolution policy tasks from (some id) h in
              rw (h, n, m, resolve_task)
                (subst (λ o. IsResolution policy tasks from (some id) (resolved o)) m k)
        ]
      ]
    ]
