-- ===== src/Relay/Listing.antt =====
-- apps/relay/src/task-store.ts: the pages in which a caller lists its calls.
pub mod Order
pub mod Sorting
pub mod Pages
use agentcall.Base.{
  ℕ, suc, ◌<◌, Bool, true, false, ◌&&◌, ◌||◌, not, Option, none, some, String, List, [], ◌∷◌,
  if◌then◌else◌, ltb, leb, length, take, keep, map, ◌==◌, string_eq, nat_eq, text_length,
}
use agentcall.Relay.Task.{
  Envelope, PersistedTask, TaskState, TerminalReason, task_belongs_to_caller, same_state,
}

pub record TaskListQuery : Type 0 where
  pub status : Option TaskState
  pub page_size : ℕ
  pub page_token : Option String
  pub history_length : Option ℕ
  pub status_timestamp_after : Option ℕ
  pub include_artifacts : Bool

-- The parts of a query that its fingerprint prints.
abbrev pub Fingerprint : Type 0
Fingerprint = Option TaskState × ℕ × Option ℕ × Option ℕ × Bool

abbrev pub query_fingerprint : TaskListQuery → Fingerprint
query_fingerprint q =
    (q.status, q.page_size, q.history_length, q.status_timestamp_after, q.include_artifacts)

-- What a page token carries.
pub record Claims : Type 0 where
  pub created_at : ℕ
  pub id : String
  pub caller : String
  pub scope : String
  pub fingerprint : String

-- `A2ATask`; the timestamp is the number that is printed, and an artifact the envelope in it.
pub record A2ATask : Type 0 where
  pub id : String
  pub state : TaskState
  pub timestamp : ℕ
  pub terminal_reason : Option TerminalReason
  pub artifact : Option Envelope

unfoldable pub to_a2a_task : Bool → PersistedTask → A2ATask
to_a2a_task include_artifacts task = record {
  id = task.call_id;
  state = task.task_state;
  timestamp = task.updated_at;
  terminal_reason = task.terminal_reason;
  artifact = if include_artifacts then task.outcome_envelope else none;
}

pub record ListResponse : Type 0 where
  pub tasks : List A2ATask
  pub next_page_token : String
  pub page_size : ℕ
  pub total_size : ℕ

-- `undefined`, `null` and a cursor.
pub data Cursor : Type 0 where
  start refused : Cursor
  behind : ℕ → String → Cursor

-- The signed tokens, `JSON.stringify` of a fingerprint, and the two comparisons of texts: by
-- `localeCompare` and by `<`.
pub record Platform : Type 0 where
  pub encode_token : Claims → String
  pub decode_token : String → Option Claims
  pub stringify : Fingerprint → String
  pub locale_lt : String → String → Bool
  pub unit_lt : String → String → Bool

abbrev pub has_state : Option TaskState → PersistedTask → Bool
has_state none task = true
has_state (some state) task = same_state task.task_state state

abbrev pub changed_since : Option ℕ → PersistedTask → Bool
changed_since none task = true
changed_since (some bound) task = leb bound task.updated_at

abbrev pub is_visible : String → TaskListQuery → PersistedTask → Bool
is_visible caller q task =
    task_belongs_to_caller task caller
    && has_state q.status task
    && changed_since q.status_timestamp_after task

-- `selected[selected.length - 1]`
abbrev pub last_of : List PersistedTask → Option PersistedTask
last_of [] = none
last_of (t ∷ []) = some t
last_of (t ∷ next ∷ ts) = last_of (next ∷ ts)

module _ (platform : Platform) where
  -- The comparison of the sort: the later created first, and then by the id.
  abbrev pub listed_before : PersistedTask → PersistedTask → Bool
  listed_before a b =
      ltb b.created_at a.created_at
      || a.created_at == b.created_at && platform.locale_lt a.call_id b.call_id

  unfoldable pub after_cursor : Cursor → PersistedTask → Bool
  after_cursor (behind created_at id) task =
      ltb task.created_at created_at
      || task.created_at == created_at && platform.unit_lt id task.call_id
  after_cursor _ task = true

  unfoldable pub insert_listed : PersistedTask → List PersistedTask → List PersistedTask
  insert_listed t [] = t ∷ []
  insert_listed t (x ∷ xs) = if listed_before x t then x ∷ insert_listed t xs else t ∷ x ∷ xs

  unfoldable pub sort_tasks : List PersistedTask → List PersistedTask
  sort_tasks [] = []
  sort_tasks (t ∷ ts) = insert_listed t (sort_tasks ts)

  unfoldable pub visible_tasks : List PersistedTask → String → TaskListQuery → List PersistedTask
  visible_tasks all_tasks caller q = sort_tasks (keep (is_visible caller q) all_tasks)

  unfoldable pub encode_cursor : PersistedTask → String → TaskListQuery → String → String
  encode_cursor task caller q scope = platform.encode_token (record {
    created_at = task.created_at;
    id = task.call_id;
    caller = caller;
    scope = scope;
    fingerprint = platform.stringify (query_fingerprint q);
  })

  abbrev pub is_for : Claims → String → TaskListQuery → String → Bool
  is_for c caller q scope =
      ltb 0 (text_length c.id)
      && leb (text_length c.id) 128
      && c.caller == caller
      && c.scope == scope
      && c.fingerprint == platform.stringify (query_fingerprint q)

  unfoldable pub decode_cursor : String → TaskListQuery → String → Option String → Cursor
  decode_cursor caller q scope none = start
  decode_cursor caller q scope (some value) =
      if value == "" then start else elim (platform.decode_token value) [
        | none ↦ refused
        | some claims ↦
            if is_for claims caller q scope then behind claims.created_at claims.id else refused
      ]

  unfoldable pub next_token :
      String → TaskListQuery → String → List PersistedTask → List PersistedTask → String
  next_token caller q scope remaining selected = elim (last_of selected) [
    | none ↦ ""
    | some last ↦
        if ltb (length selected) (length remaining) then encode_cursor last caller q scope else ""
  ]

  unfoldable pub page :
      String → TaskListQuery → String → List PersistedTask → List PersistedTask → ListResponse
  page caller q scope visible remaining =
      let selected = take q.page_size remaining in
      record {
        tasks = map (to_a2a_task q.include_artifacts) selected;
        next_page_token = next_token caller q scope remaining selected;
        page_size = q.page_size;
        total_size = length visible;
      }

  unfoldable pub list_caller_tasks :
      List PersistedTask → String → TaskListQuery → String → Option ListResponse
  list_caller_tasks all_tasks caller q scope =
      let visible = visible_tasks all_tasks caller q in
      elim (decode_cursor caller q scope q.page_token) [
        | refused ↦ none
        | start ↦ some (page caller q scope visible visible)
        | behind created_at id ↦
            some (page caller q scope visible (keep (after_cursor (behind created_at id)) visible))
      ]
