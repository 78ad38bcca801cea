-- ===== src/Cli/Contexts.antt =====
-- packages/cli/src/contexts.ts: the conversations that a caller may resume.
pub mod Laws
pub mod Pruning
use agentcall.Base.{
  ℕ, ◌+◌, ◌-◌, ◌*◌, Bool, true, false, not, ◌&&◌, ◌||◌, Option, none, some, String, List, [], ◌∷◌,
  ◌==◌, if◌then◌else◌, leb, ltb, keep, find, take, string_eq,
}

abbrev pub context_ttl_ms : ℕ
context_ttl_ms = 30 * 60_000

abbrev pub max_context_turns : ℕ
max_context_turns = 10

abbrev pub max_contexts : ℕ
max_contexts = 100

pub data AgentKind : Type 0 where
  claude codex : AgentKind

abbrev pub same_kind : AgentKind → AgentKind → Bool
same_kind claude claude = true
same_kind codex codex = true
same_kind _ _ = false

pub record ContextBinding : Type 0 where
  pub context_id : String
  pub agent_session_id : String
  pub caller : String
  pub task : String
  pub agent_kind : AgentKind
  pub workdir : String
  pub turns : ℕ
  pub created_at : ℕ
  pub last_used_at : ℕ

pub record AdmitInput : Type 0 where
  pub context_id : String
  pub caller : String
  pub task : String
  pub agent_kind : AgentKind
  pub workdir : String
  pub now : ℕ

abbrev pub is_context : String → ContextBinding → Bool
is_context id b = b.context_id == id

-- `now - last_used_at < CONTEXT_TTL_MS`
abbrev pub is_fresh : ℕ → ContextBinding → Bool
is_fresh now b = ltb (now - b.last_used_at) context_ttl_ms

unfoldable pub admit_context : List ContextBinding → AdmitInput → Option ContextBinding
admit_context bindings i = elim (find (is_context i.context_id) bindings) [
  | none ↦ none
  | some b ↦
      if not (b.caller == i.caller)
      then none
      else if not (b.task == i.task)
      then none
      else if not (same_kind b.agent_kind i.agent_kind)
      then none
      else if not (b.workdir == i.workdir)
      then none
      else if leb context_ttl_ms (i.now - b.last_used_at)
      then none
      else if leb max_context_turns b.turns
      then none
      else some b
]

-- The stable sort with the last used first.
unfoldable pub insert_recent : ContextBinding → List ContextBinding → List ContextBinding
insert_recent b [] = b ∷ []
insert_recent b (c ∷ cs) =
    if leb c.last_used_at b.last_used_at then b ∷ c ∷ cs else c ∷ insert_recent b cs

unfoldable pub sort_recent : List ContextBinding → List ContextBinding
sort_recent [] = []
sort_recent (b ∷ bs) = insert_recent b (sort_recent bs)

unfoldable pub prune_contexts : List ContextBinding → ℕ → List ContextBinding
prune_contexts bindings now = take max_contexts (sort_recent (keep (is_fresh now) bindings))

unfoldable pub upsert_context : List ContextBinding → ContextBinding → List ContextBinding
upsert_context bindings b = b ∷ keep (λ c. not (is_context b.context_id c)) bindings
