-- ===== src/Relay/Mailbox/Quota/Steps.antt =====
-- The mailbox under every interleaving of its handlers and transactions.
use agentcall.Base.{ℕ, ◌≡◌, Bool, false, Option, none, String, [], ◌==◌, string_eq, refl, arith}
use agentcall.Base.Map.{lookup}
use agentcall.Base.Map.Weight.{weight}
use agentcall.Relay.Task.{PersistedTask, Envelope}
use agentcall.Relay.Store.{Storage}
use agentcall.Relay.Window.{Windows}
use agentcall.Relay.Mailbox.Settle.{
  cancel_undelivered, revoke_durable_task, recover_expired_lease, expire_task,
}
use agentcall.Relay.Mailbox.Dispatch.{Directory, ListenerAttachment, dispatch_next, lease_next}
use agentcall.Relay.Mailbox.Frames.{ListenerMessage}
use agentcall.Relay.Mailbox.Handler.{World, listener_message, alarm}
use agentcall.Relay.Mailbox.Flush.{flush_waiting}
use agentcall.Relay.Mailbox.Caller.{CallerAttachment, CallerFrame, caller_message}
use agentcall.Relay.Mailbox.Quota.{IsExact}
use agentcall.Relay.Mailbox.Quota.Preserve.{
  cancel_undelivered-IsExact, revoke_durable_task-IsExact, recover_expired_lease-IsExact,
}
use agentcall.Relay.Mailbox.Quota.Expiry.{expire_task-IsExact}
use agentcall.Relay.Mailbox.Quota.Dispatching.{dispatch_next-IsExact, lease_next-IsExact}
use agentcall.Relay.Mailbox.Quota.Handlers.{listener_message-IsExact, alarm-IsExact}
use agentcall.Relay.Mailbox.Quota.Flush.{flush_waiting-IsExact}
use agentcall.Relay.Mailbox.Quota.Calling.{caller_message-IsExact}

abbrev pub empty_storage : Storage
empty_storage = record {
  calls = [];
  dedupe = [];
  queue = [];
  due = [];
  outbox = [];
  starts = [];
  floors = [];
  active = none;
  outstanding = 0;
  caller_outstanding = [];
  ciphertext_bytes = 0;
  alarm = none;
}

-- A handler that runs through, or a transaction of one that waits in between, with anything of
-- the world around it. What a handler lets happen while the database answers is again any sequence
-- of steps. `crypto.randomUUID` gives an id that is not taken, and the attachment of
-- a caller has the caller's agent.
mutual
  pub data Step : Storage → Storage → Type 0 where
    calls :
        {s : Storage} (w : World) (digest : Envelope → String) (now : ℕ) (fresh : String)
        (att : CallerAttachment) (listening oversized : Bool) (parsed : Option CallerFrame)
        (windows : Windows)
        → lookup fresh s.calls ≡ none
        → (att.from_agent_id == "") ≡ false
        → Step s
            (caller_message w digest now fresh listening att oversized parsed windows s).storage
    hears :
        {s : Storage} (w : World) (now : ℕ) (l : ListenerAttachment) (m : ListenerMessage)
        → ((u : Storage) → Reach u (w.directory.meanwhile u))
        → Step s (listener_message w now l m s).0
    rings :
        {s : Storage} (w : World) (now : ℕ) (l : Option ListenerAttachment) (windows : Windows)
        → ((u : Storage) → Reach u (w.directory.meanwhile u))
        → Step s (alarm w now l windows s).0
    cancels : {s : Storage} (now : ℕ) (id : String) → Step s (cancel_undelivered now id s).0
    revokes :
        {s : Storage} (now : ℕ) (task : PersistedTask) → Step s (revoke_durable_task now task s)
    recovers : {s : Storage} (now : ℕ) (id : String) → Step s (recover_expired_lease id now s)
    expires : {s : Storage} (now : ℕ) (id : String) → Step s (expire_task id now s).0
    leases :
        {s : Storage} (now : ℕ) (fresh session : String) (ms : ℕ)
        → Step s (lease_next now fresh session ms s).0
    dispatches :
        {s : Storage} (d : Directory) (now : ℕ) (fresh : String) (l : ListenerAttachment)
        → ((u : Storage) → Reach u (d.meanwhile u))
        → Step s (dispatch_next d now fresh l s).0
    drains :
        {s : Storage} (meanwhile : Storage → Storage) (accepted : Bool) (now : ℕ) (m : Option ℕ)
        → ((u : Storage) → Reach u (meanwhile u))
        → Step s (flush_waiting meanwhile accepted now m s)

  pub data Reach : Storage → Storage → Type 0 where
    here : {s : Storage} → Reach s s
    next : {s t u : Storage} → Reach s t → Step t u → Reach s u

mutual
  Step-IsExact : {s t : Storage} → Step s t → IsExact s → IsExact t
  Step-IsExact (calls {s} w digest now fresh att listening oversized parsed windows unused named)
        x =
      caller_message-IsExact w digest now fresh att s x unused named listening oversized parsed
        windows
  Step-IsExact (hears {s} w now l m waits) x =
      listener_message-IsExact w now l m s (λ u y. kept (waits u) y) x
  Step-IsExact (rings {s} w now l windows waits) x =
      alarm-IsExact w now l windows s (λ u y. kept (waits u) y) x
  Step-IsExact (cancels {s} now id) x = cancel_undelivered-IsExact now id s x
  Step-IsExact (revokes {s} now task) x = revoke_durable_task-IsExact now task s x
  Step-IsExact (recovers {s} now id) x = recover_expired_lease-IsExact id now s x
  Step-IsExact (expires {s} now id) x = expire_task-IsExact id now s x
  Step-IsExact (leases {s} now fresh session ms) x = lease_next-IsExact now fresh session ms s x
  Step-IsExact (dispatches {s} d now fresh l waits) x =
      dispatch_next-IsExact d now fresh l (λ u y. kept (waits u) y) s x
  Step-IsExact (drains {s} meanwhile ok now m waits) x =
      flush_waiting-IsExact meanwhile ok now m s (λ u y. kept (waits u) y) x

  kept : {s t : Storage} → Reach s t → IsExact s → IsExact t
  kept here x = x
  kept (next r k) x = Step-IsExact k (kept r x)

empty-IsExact : IsExact empty_storage
unfolding lookup weight
empty-IsExact = record {
  distinct = tt;
  settled = λ id t h. ground arith;
  total = refl;
  each_caller = λ a. refl;
  stored = refl;
  within = omega arith;
  caller_within = λ a. omega arith;
}

-- From the empty mailbox, after any sequence of frames, alarms and transactions, interleaved in
-- any order: the outstanding, per-caller and byte counters are what the stored calls add up to,
-- at most 100 durable calls are outstanding, and at most 10 of any one caller.
pub Reach-IsExact : {s : Storage} → Reach empty_storage s → IsExact s
Reach-IsExact r = kept r empty-IsExact
