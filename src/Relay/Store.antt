-- ===== src/Relay/Store.antt =====
-- apps/relay/src/do.ts: the durable storage of one handle, one field for each family of keys. A
-- key made of a padded time and an identifier is the pair of them, in the order of the storage.
use agentcall.Base.{
  ℕ, Bool, true, false, ◌&&◌, ◌||◌, Option, none, some, String, List, [], ◌∷◌, ◌==◌, if◌then◌else◌,
  ltb, string_eq, nat_eq, pair_eq,
}
use agentcall.Relay.Task.{PersistedTask}
use Prim.Native.String.{compare}
use Prim.Native.Nat.{Ordering}

-- `${String(at).padStart(16, "0")}:${id}`: the storage lists keys in lexicographic order, so by
-- the time first.
abbrev pub Index : Type 0
Index = ℕ × String

unfoldable pub precedes : Index → Index → Bool
precedes (a, s) (b, t) =
    ltb a b || ((a == b) && elim (compare s t) [ Ordering.lt ↦ true | _ ↦ false ])

module _ {V : Type 0} where
  unfoldable pub insert_ordered : Index × V → List (Index × V) → List (Index × V)
  insert_ordered x [] = x ∷ []
  insert_ordered x (y ∷ ys) = if precedes y.0 x.0 then y ∷ insert_ordered x ys else x ∷ y ∷ ys

  -- `storage.list({ prefix })`
  unfoldable pub list_ordered : List (Index × V) → List (Index × V)
  unfolding insert_ordered precedes
  list_ordered [] = []
  list_ordered (x ∷ xs) = insert_ordered x (list_ordered xs)

  -- `storage.list({ prefix, limit: 1 })`
  unfoldable pub first_ordered : List (Index × V) → Option (Index × V)
  unfolding list_ordered
  first_ordered xs = elim (list_ordered xs) [ [] ↦ none | x ∷ _ ↦ some x ]

pub record DedupeRecord : Type 0 where
  pub call_id : String
  pub request_envelope_sha256 : Option String
  pub purge_at : Option ℕ

pub data CallAuditEvent : Type 0 where
  submit accept complete fail cancel timeout : CallAuditEvent

pub data Action : Type 0 where
  create update : Action

pub data ActorType : Type 0 where
  handle system : ActorType

pub record CallAuditIntent : Type 0 where
  pub event_key : String
  pub event : CallAuditEvent
  pub action : Action
  pub org : String
  pub actor : String
  pub actor_type : ActorType
  pub target_id : String
  pub actor_ip : Option String
  pub actor_country : Option String
  pub description : String
  pub at : ℕ

pub record Storage : Type 0 where
  pub calls : List (String × PersistedTask)
  pub dedupe : List ((String × String) × DedupeRecord)
  pub queue : List (Index × String)
  pub due : List (Index × String)
  pub outbox : List (Index × CallAuditIntent)
  pub starts : List (Index × ℕ)
  pub floors : List ((String × String) × ℕ)
  pub active : Option String
  pub outstanding : ℕ
  pub caller_outstanding : List (String × ℕ)
  pub ciphertext_bytes : ℕ
  pub alarm : Option ℕ

abbrev pub queue_key : PersistedTask → Index
queue_key task = (task.created_at, task.call_id)

abbrev pub due_key : PersistedTask → Index
due_key task = (task.deadline, task.call_id)

abbrev pub start_key : ℕ → String → Index
start_key at call_id = (at, call_id)
