-- ===== src/Cli/Contexts/Laws.antt =====
-- Who may resume what.
use agentcall.Base.{
  ◌+◌, ◌-◌, ◌<◌, ◌≡◌, Bool, true, false, not, ◌&&◌, none, some, String, List, [], ◌∷◌, ◌==◌,
  if◌then◌else◌, leb, keep, find, string_eq, arith, eq_iff, refl, sym, ◌∙◌, ap, inl, inr,
  Bool-cases, Option-cases, subst, get_or,
}
use agentcall.Cli.Contexts.{
  AgentKind, claude, codex, same_kind, ContextBinding, AdmitInput, is_context, admit_context,
  upsert_context, context_ttl_ms, max_context_turns,
}

same_kind→≡ : (a b : AgentKind) → same_kind a b ≡ true → a ≡ b
same_kind→≡ claude claude e = refl
same_kind→≡ codex codex e = refl
same_kind→≡ claude codex e = ground (arith, e)
same_kind→≡ codex claude e = ground (arith, e)

-- The binding is for just this caller, task, agent and directory, and is neither over nor used up.
pub record IsFor (i : AdmitInput) (b : ContextBinding) : Type 0 where
  pub context : b.context_id ≡ i.context_id
  pub caller : b.caller ≡ i.caller
  pub task : b.task ≡ i.task
  pub agent : b.agent_kind ≡ i.agent_kind
  pub workdir : b.workdir ≡ i.workdir
  pub fresh : i.now < b.last_used_at + context_ttl_ms
  pub turns : b.turns < max_context_turns

abbrev pub matches : AdmitInput → ContextBinding → Bool
matches i b =
    (b.caller == i.caller)
    && (b.task == i.task)
    && same_kind b.agent_kind i.agent_kind
    && (b.workdir == i.workdir)
    && not (leb context_ttl_ms (i.now - b.last_used_at))
    && not (leb max_context_turns b.turns)

guards :
    (x : ContextBinding) (a b c d e f : Bool)
    → (if not a
        then none
        else if not b
        then none
        else if not c
        then none
        else if not d
        then none
        else if e
        then none
        else if f
        then none
        else some x)
      ≡ (if a && b && c && d && not e && not f then some x else none)
guards x false b c d e f = refl
guards x true false c d e f = refl
guards x true true false d e f = refl
guards x true true true false e f = refl
guards x true true true true true f = refl
guards x true true true true false true = refl
guards x true true true true false false = refl

admit_context-matches :
    (bindings : List ContextBinding) (i : AdmitInput) (b : ContextBinding)
    → find (is_context i.context_id) bindings ≡ some b
    → admit_context bindings i ≡ (if matches i b then some b else none)
unfolding admit_context
admit_context-matches bindings i b f =
    rw (f, admit_context)
      (guards b (b.caller == i.caller) (b.task == i.task) (same_kind b.agent_kind i.agent_kind)
        (b.workdir == i.workdir) (leb context_ttl_ms (i.now - b.last_used_at))
        (leb max_context_turns b.turns))

matches-IsFor :
    (i : AdmitInput) (b : ContextBinding)
    → is_context i.context_id b ≡ true
    → matches i b ≡ true
    → IsFor i b
matches-IsFor i b c m = record {
  context = ground (arith, eq_iff b.context_id i.context_id);
  caller = ground (arith, eq_iff b.caller i.caller);
  task = ground (arith, eq_iff b.task i.task);
  agent = ground (arith, same_kind→≡ b.agent_kind i.agent_kind);
  workdir = ground (arith, eq_iff b.workdir i.workdir);
  fresh = ground arith;
  turns = ground arith;
}

find_context :
    (id : String) (bs : List ContextBinding) (b : ContextBinding)
    → find (is_context id) bs ≡ some b
    → is_context id b ≡ true
find_context id [] b e = ground (arith, e)
find_context id (c ∷ bs) b e = ground (arith, find_context id bs b)

-- A resumed session is the caller's own, for the same task, agent and directory, not over and not
-- used up.
pub admit_context-IsFor :
    (bindings : List ContextBinding) (i : AdmitInput) (b : ContextBinding)
    → admit_context bindings i ≡ some b
    → IsFor i b
unfolding admit_context
admit_context-IsFor bindings i b = elim (Option-cases (find (is_context i.context_id) bindings)) [
  | inl f ↦ rw (f, admit_context) (λ e. ground (arith, e))
  | inr (c, f) ↦
      let k = admit_context-matches bindings i c f in
      elim (Bool-cases (matches i c)) [
        | inl m ↦ λ e.
            let same : some c ≡ some b = sym (k ∙ rw m refl) ∙ e in
            subst (IsFor i) (ap (λ o. get_or o c) same)
              (matches-IsFor i c (find_context i.context_id bindings c f) m)
        | inr m ↦ λ e. let no : none ≡ some b = sym (k ∙ rw m refl) ∙ e in ground (arith, no)
      ]
]

find_others :
    (id j : String) (bs : List ContextBinding)
    → (j == id) ≡ false
    → find (is_context id) (keep (λ c. not (is_context j c)) bs) ≡ find (is_context id) bs
find_others id j [] d = refl
find_others id j (c ∷ bs) d =
    ground (arith, eq_iff j id, eq_iff c.context_id j, eq_iff c.context_id id, find_others id j bs)

admit_context-find :
    (bs cs : List ContextBinding) (i : AdmitInput)
    → find (is_context i.context_id) bs ≡ find (is_context i.context_id) cs
    → admit_context bs i ≡ admit_context cs i
unfolding admit_context
admit_context-find bs cs i e = rw (e, admit_context) refl

-- Recording a conversation changes what may be resumed for that conversation only, and there to
-- exactly what was recorded.
pub upsert_context-admit_context :
    (bindings : List ContextBinding) (b : ContextBinding) (i : AdmitInput)
    → admit_context (upsert_context bindings b) i ≡ (
        if is_context i.context_id b
        then (if matches i b then some b else none)
        else admit_context bindings i)
unfolding upsert_context
upsert_context-admit_context bindings b i = elim (Bool-cases (is_context i.context_id b)) [
  | inl h ↦ rw h (admit_context-matches (upsert_context bindings b) i b (rw h refl))
  | inr h ↦ rw h (
      admit_context-find (upsert_context bindings b) bindings i
        (rw h (find_others i.context_id b.context_id bindings h)))
]
