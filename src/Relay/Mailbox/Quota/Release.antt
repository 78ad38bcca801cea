-- ===== src/Relay/Mailbox/Quota/Release.antt =====
-- Ending a durable call gives its quota back exactly once.
use agentcall.Base.{
  ℕ, ◌+◌, ◌-◌, ◌≤◌, ◌≡◌, true, false, Option, none, some, String, List, if◌then◌else◌, get_or,
  string_eq, arith, refl, ◌∙◌, eq_iff,
}
use agentcall.Base.Map.{lookup, put}
use agentcall.Base.Map.Laws.{lookup-put}
use agentcall.Base.Map.Weight.{weight, weight_of, weight_of-le-weight}
use agentcall.Relay.Task.{PersistedTask, is_durable, task_is_terminal}
use agentcall.Relay.Store.{Storage}
use agentcall.Relay.Mailbox.{truthy, release_durable_quota, lower_caller}
use agentcall.Relay.Mailbox.Quota.{
  is_from, outstanding_weight, caller_weight, bytes_weight, Exact, IsExact, Exact-put,
}

-- One caller's counter after the release.
pub lowered_caller :
    (g : Option String) (a : String) (c : List (String × ℕ))
    → get_or (lookup a (lower_caller g c)) 0
      ≡ get_or (lookup a c) 0 - (if is_from a g then 1 else 0)
lowered_caller none a c = omega arith
lowered_caller (some g) a c =
    ground (arith, eq_iff g a, lookup-put g a (get_or (lookup g c) 0 - 1) c)

module _ (id : String) (s : Storage) (p n : PersistedTask) (x : IsExact s)
    (found : lookup id s.calls ≡ some p) (durable : is_durable p ≡ true)
    (open_before : task_is_terminal p ≡ false) where
  at_least : (f : PersistedTask → ℕ) → f p ≤ weight f s.calls
  at_least f =
      let e : weight_of f (lookup id s.calls) ≡ f p = rw found refl in
      omega (arith, e, weight_of-le-weight f id s.calls x.distinct)

  -- The record of a call that was outstanding is replaced by one that has ended.
  pub released-Exact :
      n.call_id ≡ p.call_id
      → is_durable n ≡ true
      → task_is_terminal n ≡ true
      → let r = release_durable_quota p n s in
        Exact
          (put id r.1 (r.0).calls)
          (r.0).outstanding
          (r.0).caller_outstanding
          (r.0).ciphertext_bytes
  unfolding release_durable_quota
  released-Exact same d t =
      let fresh : p.quota_released ≡ false = ground (arith, x.settled id p found) in
      rw (durable, fresh, release_durable_quota)
        (Exact-put x id (record n { quota_released = true }) (s.outstanding - 1)
          (lower_caller (truthy p.from_agent_id) s.caller_outstanding)
          (s.ciphertext_bytes + get_or n.ciphertext_bytes 0 - get_or p.ciphertext_bytes 0)
          (same ∙ (x.settled id p found).0, rw (d, t) refl)
          (rw found (ground (arith, at_least outstanding_weight, x.total)))
          (λ a.
            rw (found, lowered_caller (truthy p.from_agent_id) a s.caller_outstanding)
              (ground (arith, at_least (caller_weight a), x.each_caller a)))
          (rw found (ground (arith, at_least bytes_weight, x.stored))) (omega (arith, x.within))
          (λ a.
            rw (lowered_caller (truthy p.from_agent_id) a s.caller_outstanding)
              (omega (arith, x.caller_within a))))
