-- ===== src/Cli/Listener/Admission/Resumed.antt =====
-- packages/cli/src/listener-stages.ts: whom the stages admit, and to which conversation.
use agentcall.Base.{
  true, false, Option, none, some, String, List, [], ◌≡◌, ap, ◌∙◌, subst, ◌⊎◌, inl, inr, arith,
  Option-cases, Bool-cases, get_or, ◌==◌, string_eq, any,
}
use agentcall.Cli.Access.{
  Policy, PolicyFile, Task, TaskResolution, access_for, call_blocked, is_blocked, load_policy,
  resolve_task, resolved, task_unknown,
}
use agentcall.Cli.Access.Laws.{IsEnforceable, load_policy-IsEnforceable, resolve_task-IsResolution}
use agentcall.Cli.Guard.Scope
use agentcall.Cli.Guard.Scope.{Scope, ScopeFile, load_scope}
use agentcall.Cli.Contexts.{ContextBinding, admit_context, prune_contexts}
use agentcall.Cli.Contexts.Laws.{IsFor, admit_context-IsFor}
use agentcall.Cli.Listener.Admission.{
  BindingInput, admit_binding, admit_input, admitted, bound, decision_of, resolve_admission,
  scope_of, threading_available,
}

-- A call is bound to a conversation only if it names it, threading is available, and the binding
-- is its caller's own, for the same task, agent and directory, not over and not used up. A call is
-- bound to none only if it names none: a conversation that cannot be resumed fails the call.
pub admit_binding-IsFor :
    (i : BindingInput) (stored contexts : List ContextBinding) (binding : Option ContextBinding)
    → admit_binding i stored ≡ bound contexts binding
    → (binding ≡ none) × (i.context_id ≡ none)
      ⊎ ((b : ContextBinding) × (id : String) × (binding ≡ some b)
          × (i.context_id ≡ some id)
          × (threading_available i ≡ true)
          × IsFor (admit_input i id) b)
unfolding admit_binding
admit_binding-IsFor i stored contexts binding h = elim (Option-cases i.context_id) [
  | inl e ↦ inl (ground arith, e)
  | inr (id, e) ↦ elim (Bool-cases (threading_available i)) [
    | inr f ↦ absurd (ground arith)
    | inl f ↦ elim (Option-cases (admit_context (prune_contexts stored i.now) (admit_input i id))) [
      | inl g ↦ absurd (ground arith)
      | inr (b, g) ↦ inr (
        b,
        id,
        ground arith,
        e,
        f,
        admit_context-IsFor (prune_contexts stored i.now) (admit_input i id) b g,
      )
    ]
  ]
]

scope_of-loaded :
    (l : Scope.Loaded) (scope : Scope) → scope_of l ≡ some scope → l ≡ Scope.loaded scope
scope_of-loaded (Scope.loaded s) scope h = ground arith
scope_of-loaded (Scope.threw e) scope h = absurd (ground arith)

decision_of-admitted :
    (policy : Policy) (scope : Scope) (r : TaskResolution) (task : Option Task) (policy' : Policy)
    (scope' : Scope)
    → decision_of policy scope r ≡ admitted task policy' scope'
    → (r ≡ resolved task) × (policy ≡ policy') × (scope ≡ scope')
decision_of-admitted policy scope (resolved t) task policy' scope' h =
    (ground arith, ground arith, ground arith)
decision_of-admitted policy scope call_blocked task policy' scope' h = absurd (ground arith)
decision_of-admitted policy scope (task_unknown o) task policy' scope' h = absurd (ground arith)

-- A call that is admitted to a task was admitted under the policy and the scope of the files, both
-- of which were read and in force; its caller is not blocked, and the task is one of the known
-- tasks and the one that was asked for, or `ask` where none was.
pub resolve_admission-admitted :
    (policy_file : PolicyFile) (scope_file : ScopeFile) (tasks : Option (List Task)) (from : String)
    (requested : Option String) (task : Task) (policy : Policy) (scope : Scope)
    → resolve_admission policy_file scope_file tasks from requested
      ≡ admitted (some task) policy scope
    → (load_policy policy_file ≡ some policy)
      × IsEnforceable policy
      × (load_scope scope_file ≡ Scope.loaded scope)
      × (is_blocked (access_for policy from) ≡ false)
      × (task.id == get_or requested "ask" ≡ true)
      × (any (λ known. known.id == task.id) (get_or tasks []) ≡ true)
unfolding resolve_admission
resolve_admission-admitted policy_file scope_file tasks from requested task policy scope h =
    elim (Option-cases (load_policy policy_file)) [
      | inl e ↦ absurd (ground arith)
      | inr (p, e) ↦ elim (Option-cases (scope_of (load_scope scope_file))) [
        | inl f ↦ absurd (ground arith)
        | inr (s, f) ↦ elim (Option-cases tasks) [
          | inl g ↦ absurd (ground arith)
          | inr (known, g) ↦
              let (r, same, same') =
                decision_of-admitted p s (resolve_task p known from requested) (some task) policy
                  scope (ground arith) in
              let resolution = resolve_task-IsResolution p known from requested in
              let files : (load_policy policy_file ≡ some policy)
                  × (load_scope scope_file ≡ Scope.loaded scope) =
                (
                  e ∙ ap some same,
                  scope_of-loaded (load_scope scope_file) scope (f ∙ ap some same'),
                ) in
              (
                files.0,
                load_policy-IsEnforceable policy_file policy files.0,
                files.1,
                subst (λ q. is_blocked (access_for q from) ≡ false) same
                    (resolution.permitted task r),
                resolution.asked task r,
                rw g (resolution.offered task r),
              )
        ]
      ]
    ]
