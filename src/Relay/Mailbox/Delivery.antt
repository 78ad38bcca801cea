-- ===== src/Relay/Mailbox/Delivery.antt =====
-- What `dispatchNext` delivers, and that it comes to an end.
use agentcall.Base.{
  ℕ, zero, suc, ◌+◌, ◌≤◌, ◌<◌, ◌≡◌, ◌⊎◌, true, false, not, ◌&&◌, ◌||◌, Option, none, some, String,
  List, arith, refl, sym, ap, ◌∙◌, inl, inr, Option-cases, Bool-cases, length, keep, get_or,
  string_eq, nat_eq, pair_eq, subst, eq_iff,
}
use agentcall.Base.Map.{lookup}
use agentcall.Base.Map.Laws.{lookup-put}
use agentcall.Relay.Task.{PersistedTask, is_queued, task_is_terminal}
use agentcall.Relay.Store.{Storage, Index, first_ordered}
use agentcall.Relay.Mailbox.{truthy}
use agentcall.Shared.Limits.{relay_call_timeout_ms}
use agentcall.Relay.Mailbox.Quota.Dispatching.{Readiness-cases}
use agentcall.Relay.Mailbox.Dispatch.{
  Directory, IncomingCall, Readiness, ready, check_head, check_candidate, readiness, is_live_start,
  durable_authority_is_current, lease_next, lease_head, leased_task, incoming_call, dispatch_queue,
  mailbox_max_starts_per_day, unauthorized, revoke_and_flush, can_rebind, rebound_task,
  rebind_active, is_capped,
}

module _ (d : Directory) (now : ℕ) (fresh session : String) (ms : ℕ) where
  -- The head of the queue, when it waits for its delivery.
  pub record Head (s : Storage) : Type 0 where
    pub key : Index
    pub id : String
    pub task : PersistedTask
    pub first : first_ordered s.queue ≡ some (key, id)
    pub stored : lookup id s.calls ≡ some task
    pub queued : is_queued task ≡ true
    pub opened : task_is_terminal task ≡ false
    pub checks : check_head d now s ≡ check_candidate d now task s

  idle_lease :
      (s : Storage) → first_ordered s.queue ≡ none → (lease_next now fresh session ms s).1 ≡ none
  unfolding lease_next
  idle_lease s e = elim (Option-cases (truthy s.active)) [
    | inl a ↦ rw (a, e, lease_next) refl
    | inr (_, a) ↦ rw (a, lease_next) refl
  ]

  stray_lease :
      (s : Storage) (key : Index) (id : String)
      → first_ordered s.queue ≡ some (key, id)
      → (lease_head now fresh session ms key id s).1 ≡ none
      → (lease_next now fresh session ms s).1 ≡ none
  unfolding lease_next
  stray_lease s key id e h = elim (Option-cases (truthy s.active)) [
    | inl a ↦ rw (a, e, lease_next) h
    | inr (_, a) ↦ rw (a, lease_next) refl
  ]

  pub check_head-cases :
      (s : Storage)
      → ((check_head d now s ≡ (s, ready)) × ((lease_next now fresh session ms s).1 ≡ none))
        ⊎ Head s
  unfolding check_head lease_head
  check_head-cases s = elim (Option-cases (first_ordered s.queue)) [
    | inl e ↦ inl (rw (e, check_head) refl, idle_lease s e)
    | inr ((key, id), e) ↦ elim (Option-cases (lookup id s.calls)) [
      | inl f ↦ inl (rw (e, f, check_head) refl, stray_lease s key id e (rw (f, lease_head) refl))
      | inr (t, f) ↦ elim (Bool-cases (task_is_terminal t || not (is_queued t))) [
        | inl g ↦
            let g' : (is_queued t && not (task_is_terminal t)) ≡ false = ground arith in
            inl
              (rw (e, f, g', check_head) refl, stray_lease s key id e (rw (f, g, lease_head) refl))
        | inr g ↦
            let g' : (is_queued t && not (task_is_terminal t)) ≡ true = ground arith in
            inr (record {
              key = key;
              id = id;
              task = t;
              first = e;
              stored = f;
              queued = ground arith;
              opened = ground arith;
              checks = rw (e, f, g', check_head) refl;
            })
      ]
    ]
  ]

  -- What must hold of a call before it goes out.
  pub record IsDeliverable (s : Storage) (task : PersistedTask) : Type 0 where
    pub queued : is_queued task ≡ true
    pub opened : task_is_terminal task ≡ false
    pub current : durable_authority_is_current d task ≡ true
    pub in_time : now + relay_call_timeout_ms ≤ get_or task.execute_by 0
    pub below_cap : length (keep (is_live_start now) s.starts) < mailbox_max_starts_per_day

  -- From the first storage to the second by revocations of calls without authority.
  pub data Revokes : Storage → Storage → Type 0 where
    settled : {s : Storage} → Revokes s s
    revokes :
        {s t : Storage} (p : PersistedTask)
        → truthy s.active ≡ none
        → (check_head d now s).1 ≡ unauthorized p
        → Revokes (revoke_and_flush d now p (check_head d now s).0) t
        → Revokes s t

  -- A lease by the transaction: the head of the queue was stored, waiting and open, no call was
  -- active, and it is now the active one and leased to the session.
  pub record Leased (u : Storage) (r : Storage × Option IncomingCall) (c : IncomingCall)
      : Type 0 where
    pub key : Index
    pub id : String
    pub task : PersistedTask
    pub first : first_ordered u.queue ≡ some (key, id)
    pub stored : lookup id u.calls ≡ some task
    pub queued : is_queued task ≡ true
    pub opened : task_is_terminal task ≡ false
    pub idle : truthy u.active ≡ none
    pub sent : incoming_call (leased_task now fresh session ms task) ≡ some c
    pub holds : (r.0).active ≡ some id
    pub kept : lookup id (r.0).calls ≡ some (leased_task now fresh session ms task)

  -- A delivery: a waiting head was deliverable, and after the wait the transaction leased what it
  -- then found at the head.
  pub record Delivers (s : Storage) (r : Storage × Option IncomingCall) (c : IncomingCall)
      : Type 0 where
    pub before : Storage
    pub revoked : Revokes s before
    pub idle : truthy before.active ≡ none
    pub head : Head before
    pub deliverable : IsDeliverable before head.task
    pub leased :
        Leased (d.meanwhile (record before { starts = keep (is_live_start now) before.starts })) r c

  -- The active call, which was started under a listener that is gone, goes to this one.
  pub record Rebinds (s : Storage) (r : Storage × Option IncomingCall) (c : IncomingCall)
      : Type 0 where
    pub before : Storage
    pub revoked : Revokes s before
    pub id : String
    pub task : PersistedTask
    pub active : truthy before.active ≡ some id
    pub stored : lookup id before.calls ≡ some task
    pub started : can_rebind task ≡ true
    pub sent : incoming_call (rebound_task now fresh session task) ≡ some c
    pub kept : lookup id (r.0).calls ≡ some (rebound_task now fresh session task)

  rebind_active-Rebinds :
      (s : Storage) (id : String) (c : IncomingCall)
      → truthy s.active ≡ some id
      → (rebind_active now fresh session id s).1 ≡ some c
      → Rebinds s (rebind_active now fresh session id s) c
  unfolding rebind_active
  rebind_active-Rebinds s id c a = elim (Option-cases (lookup id s.calls)) [
    | inl e ↦ rw (e, rebind_active) (λ h. ground (arith, h))
    | inr (t, e) ↦ elim (Bool-cases (can_rebind t)) [
      | inr b ↦ rw (e, b, rebind_active) (λ h. ground (arith, h))
      | inl b ↦
          rw (e, b, rebind_active)
            (λ h. record {
              before = s;
              revoked = settled;
              id = id;
              task = t;
              active = a;
              stored = e;
              started = b;
              sent = h;
              kept = ground (
                arith,
                lookup-put id id (rebound_task now fresh session t) s.calls,
                eq_iff id id,
              );
            })
    ]
  ]

  lease_next-Leased :
      (u : Storage) (c : IncomingCall)
      → (lease_next now fresh session ms u).1 ≡ some c
      → Leased u (lease_next now fresh session ms u) c
  unfolding lease_next lease_head
  lease_next-Leased u c = elim (Option-cases (truthy u.active)) [
    | inr (_, a) ↦ rw (a, lease_next) (λ e. ground (arith, e))
    | inl a ↦ elim (Option-cases (first_ordered u.queue)) [
      | inl f ↦ rw (a, f, lease_next) (λ e. ground (arith, e))
      | inr ((key, id), f) ↦ elim (Option-cases (lookup id u.calls)) [
        | inl g ↦ rw (a, f, g, lease_next, lease_head) (λ e. ground (arith, e))
        | inr (t, g) ↦ elim (Bool-cases (task_is_terminal t || not (is_queued t))) [
          | inl o ↦ rw (a, f, g, o, lease_next, lease_head) (λ e. ground (arith, e))
          | inr o ↦
              rw (a, f, g, o, lease_next, lease_head)
                (λ e. record {
                  key = key;
                  id = id;
                  task = t;
                  first = f;
                  stored = g;
                  queued = ground arith;
                  opened = ground arith;
                  idle = a;
                  sent = e;
                  holds = refl;
                  kept = ground (
                    arith,
                    lookup-put id id (leased_task now fresh session ms t) u.calls,
                    eq_iff id id,
                  );
                })
        ]
      ]
    ]
  ]

  readiness-ready :
      (t : PersistedTask) (live : List (Index × ℕ))
      → readiness d now t live ≡ ready
      → (durable_authority_is_current d t ≡ true)
        × (now + relay_call_timeout_ms ≤ get_or t.execute_by 0)
        × (length live < mailbox_max_starts_per_day)
  unfolding readiness
  readiness-ready t live e = ground arith

  ready-IsDeliverable :
      (s : Storage) (h : Head s)
      → readiness d now h.task (keep (is_live_start now) s.starts) ≡ ready
      → IsDeliverable s h.task
  ready-IsDeliverable s h e =
      let k = readiness-ready h.task _ e in
      record { queued = h.queued; opened = h.opened; current = k.0; in_time = k.1; below_cap = k.2 }

  candidate-ready :
      (s : Storage) (t : PersistedTask)
      → (check_candidate d now t s).1 ≡ ready
      → readiness d now t (keep (is_live_start now) s.starts) ≡ ready
  unfolding check_candidate
  candidate-ready s t e = e

  -- What the transaction finds is what the wait leaves.
  candidate-waited :
      (s : Storage) (t : PersistedTask)
      → length (keep (is_live_start now) s.starts) < mailbox_max_starts_per_day
      → (check_candidate d now t s).0
        ≡ d.meanwhile (record s { starts = keep (is_live_start now) s.starts })
  unfolding check_candidate
  candidate-waited s t below =
      let open_cap : is_capped (keep (is_live_start now) s.starts) ≡ false = ground arith in
      rw (open_cap, check_candidate) refl

  checked-Delivers :
      (s : Storage) (h : Head s) (c : IncomingCall)
      → truthy s.active ≡ none
      → (check_candidate d now h.task s).1 ≡ ready
      → (lease_next now fresh session ms (check_candidate d now h.task s).0).1 ≡ some c
      → Delivers s (lease_next now fresh session ms (check_candidate d now h.task s).0) c
  checked-Delivers s h c a e n =
      let k = ready-IsDeliverable s h (candidate-ready s h.task e) in
      let u = d.meanwhile (record s { starts = keep (is_live_start now) s.starts }) in
      let moved = candidate-waited s h.task k.below_cap in
      record {
        before = s;
        revoked = settled;
        idle = a;
        head = h;
        deliverable = k;
        leased =
            subst (λ v. Leased u (lease_next now fresh session ms v) c) (sym moved)
              (lease_next-Leased u c
                (subst (λ v. (lease_next now fresh session ms v).1 ≡ some c) moved n));
      }

  -- What goes out after a revocation goes out of the mailbox before it.
  revokes-outcome :
      (s : Storage) (p : PersistedTask) (r : Storage × Option IncomingCall) (c : IncomingCall)
      → truthy s.active ≡ none
      → (check_head d now s).1 ≡ unauthorized p
      → Delivers (revoke_and_flush d now p (check_head d now s).0) r c
        ⊎ Rebinds (revoke_and_flush d now p (check_head d now s).0) r c
      → Delivers s r c ⊎ Rebinds s r c
  revokes-outcome s p r c a e (inl x) = inl (record {
    before = x.before;
    revoked = revokes p a e x.revoked;
    idle = x.idle;
    head = x.head;
    deliverable = x.deliverable;
    leased = x.leased;
  })
  revokes-outcome s p r c a e (inr x) = inr (record {
    before = x.before;
    revoked = revokes p a e x.revoked;
    id = x.id;
    task = x.task;
    active = x.active;
    stored = x.stored;
    started = x.started;
    sent = x.sent;
    kept = x.kept;
  })

  -- A call that `dispatch_queue` sends, after any number of revocations and whatever is handled
  -- while the database answers, is one of two. Either a waiting head was checked, with current
  -- authority, the time to run and fewer than 30 calls started within the day, and the call is what
  -- was at the head after the wait: stored, waiting and open, while no other was active; it is now
  -- the active one, leased to the session. Or it is the active call, which was started before.
  pub dispatch_queue-Delivers :
      (fuel : ℕ) (s : Storage) (c : IncomingCall)
      → (dispatch_queue fuel d now fresh session ms s).1 ≡ some c
      → Delivers s (dispatch_queue fuel d now fresh session ms s) c
        ⊎ Rebinds s (dispatch_queue fuel d now fresh session ms s) c
  unfolding dispatch_queue
  dispatch_queue-Delivers zero s c = λ e. ground (arith, e)
  dispatch_queue-Delivers (suc fuel) s c = elim (Option-cases (truthy s.active)) [
    | inr (id, a) ↦ rw (a, dispatch_queue) (λ n. inr (rebind_active-Rebinds s id c a n))
    | inl a ↦ elim (check_head-cases s) [
      | inl (e, n) ↦ rw (a, e, dispatch_queue) (λ h. ground (arith, n, h))
      | inr h ↦ elim (Readiness-cases (check_candidate d now h.task s).1) [
        | inl e ↦
            rw (a, found h e, dispatch_queue)
              (rw h.checks (λ n. inl (checked-Delivers s h c a e n)))
        | inr (inl (inl e)) ↦ rw (a, found h e, dispatch_queue) (λ n. ground (arith, n))
        | inr (inl (inr e)) ↦ rw (a, found h e, dispatch_queue) (λ n. ground (arith, n))
        | inr (inr (p, e)) ↦
            rw (a, found h e, dispatch_queue)
              (λ n. revokes-outcome s p _ c a (found h e) (dispatch_queue-Delivers fuel _ c n))
      ]
    ]
  ]
    where
      found :
          {r : Readiness} (h : Head s)
          → (check_candidate d now h.task s).1 ≡ r
          → (check_head d now s).1 ≡ r
      found h e = ap (λ r. r.1) h.checks ∙ e

  Delivers-checked :
      (s : Storage) (r : Storage × Option IncomingCall) (c : IncomingCall)
      → ((u : Storage) → ((d.meanwhile u).queue ≡ u.queue) × ((d.meanwhile u).calls ≡ u.calls))
      → (x : Delivers s r c) → x.leased.task ≡ x.head.task
  Delivers-checked s r c quiet x =
      let (queues, calls) =
        quiet (record (x.before) { starts = keep (is_live_start now) x.before.starts }) in
      let same = sym x.leased.first ∙ ap first_ordered queues ∙ x.head.first in
      let ids : x.leased.id ≡ x.head.id = ground arith in
      let tasks =
        sym x.leased.stored
        ∙ ap (lookup x.leased.id) calls
        ∙ ap (λ i. lookup i x.before.calls) ids
        ∙ x.head.stored in
      ground arith

  -- When nothing moves the queue or the calls while the database answers, the call that goes out in a
  -- new lease is the very one that was checked: it had current authority and the time to run.
  pub dispatch_queue-checked :
      (fuel : ℕ) (s : Storage) (c : IncomingCall)
      → ((u : Storage) → ((d.meanwhile u).queue ≡ u.queue) × ((d.meanwhile u).calls ≡ u.calls))
      → (dispatch_queue fuel d now fresh session ms s).1 ≡ some c
      → ((x : Delivers s (dispatch_queue fuel d now fresh session ms s) c) × (x.leased.task
            ≡ x.head.task))
        ⊎ Rebinds s (dispatch_queue fuel d now fresh session ms s) c
  dispatch_queue-checked fuel s c quiet n = elim (dispatch_queue-Delivers fuel s c n) [
    | inl x ↦ inl (x, Delivers-checked s _ c quiet x)
    | inr y ↦ inr y
  ]
