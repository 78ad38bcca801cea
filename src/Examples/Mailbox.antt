-- ===== src/Examples/Mailbox.antt =====
-- The theorems on the mailbox, at work on one call.
use agentcall.Base.{
  Option, ◌≡◌, ◌⊎◌, true, false, none, some, [], ◌∷◌, refl, arith, string_eq, pair_eq, nat_eq, ◌++◌,
}
use agentcall.Base.Map.{lookup, put, delete}
use agentcall.Relay.Store.{first_ordered, list_ordered, insert_ordered, precedes}
use agentcall.Relay.Mailbox.Quota.{IsExact}
use agentcall.Relay.Mailbox.Quota.Steps.{calls, here, next, Reach-IsExact, empty_storage}
use agentcall.Relay.Store.{Storage}
use agentcall.Relay.Mailbox.Dispatch.{dispatch_queue, IncomingCall}
use agentcall.Relay.Lifecycle.Laws.{Follows, run, run-Follows}
use agentcall.Relay.Window.{
  read_live_rate_limit_stamps, record_rate_limit_hit, prune_stale_rate_limit_keys,
}
use agentcall.Relay.Window.Laws.{
  prune_stale_rate_limit_keys-read_live_rate_limit_stamps,
  record_rate_limit_hit-read_live_rate_limit_stamps,
}
use agentcall.Relay.Mailbox.Admit.{admit_durable_task, admitted, existing, over_capacity}
use agentcall.Relay.Mailbox.Dispatch.{
  leased_task, check_head, check_candidate, readiness, durable_authority_is_current, authority_of,
  lease_next, lease_head, incoming_call, incoming_of, oldest_start,
}
use agentcall.Relay.Lifecycle.{begin_authorized_call}
use agentcall.Relay.Mailbox.Caller.{caller_message, durable_task, live_task, clamp_timeout_ms}
use agentcall.Relay.Mailbox.Delivery.{
  Delivers, Rebinds, dispatch_queue-Delivers, dispatch_queue-checked,
}
use agentcall.Relay.Mailbox.Resubmission.{admit_durable_task-admit_durable_task}
use agentcall.Relay.Mailbox.Limits.{IsLimited, caller_message-IsLimited}
use agentcall.Examples.Data.{
  directory, world, digest, ann, request, no_windows, mailbox, delivery, waiting_task, second_task,
  begun, frames, queued_mailbox, windows,
}

Reach-IsExact_example : IsExact mailbox
unfolding lookup
Reach-IsExact_example = Reach-IsExact (
    next here
      (calls world digest 1_000 "call-1" ann false false (some request) no_windows refl refl))

sent : Storage × Option IncomingCall
sent = dispatch_queue 2 directory 2_000 "lease-1" "session-1" 30_000 queued_mailbox

dispatch_queue-Delivers_example :
    Delivers directory 2_000 "lease-1" "session-1" 30_000 queued_mailbox sent delivery
    ⊎ Rebinds directory 2_000 "lease-1" "session-1" 30_000 queued_mailbox sent delivery
unfolding sent dispatch_queue check_head check_candidate readiness durable_authority_is_current
    authority_of lease_next lease_head leased_task incoming_call incoming_of first_ordered
    list_ordered insert_ordered precedes lookup put delete durable_task live_task clamp_timeout_ms
    oldest_start begin_authorized_call
dispatch_queue-Delivers_example =
    dispatch_queue-Delivers directory 2_000 "lease-1" "session-1" 30_000 2 queued_mailbox delivery
      refl

dispatch_queue-checked_example :
    ((x : Delivers directory 2_000 "lease-1" "session-1" 30_000 queued_mailbox sent delivery)
      × (x.leased.task ≡ x.head.task))
    ⊎ Rebinds directory 2_000 "lease-1" "session-1" 30_000 queued_mailbox sent delivery
unfolding sent dispatch_queue check_head check_candidate readiness durable_authority_is_current
    authority_of lease_next lease_head leased_task incoming_call incoming_of first_ordered
    list_ordered insert_ordered precedes lookup put delete durable_task live_task clamp_timeout_ms
    oldest_start begin_authorized_call
dispatch_queue-checked_example =
    dispatch_queue-checked directory 2_000 "lease-1" "session-1" 30_000 2 queued_mailbox delivery
      (λ u. (refl, refl)) refl

admit_durable_task-admit_durable_task_example :
    let admission = admit_durable_task 1_000 waiting_task none empty_storage in
    (admission.1 ≡ admitted waiting_task)
    × (admit_durable_task 2_000 second_task none admission.0 ≡ (admission.0, existing waiting_task))
unfolding lookup durable_task over_capacity
admit_durable_task-admit_durable_task_example =
    admit_durable_task-admit_durable_task 1_000 2_000 none none waiting_task second_task
      empty_storage refl refl refl

no_windows-IsLimited : IsLimited 1_000 no_windows
unfolding read_live_rate_limit_stamps lookup
no_windows-IsLimited c later o = omega arith

caller_message-IsLimited_example :
    IsLimited 1_000
      (caller_message world digest 1_000 "call-1" true ann false
        (some request)
        no_windows
        empty_storage).windows
caller_message-IsLimited_example =
    caller_message-IsLimited 1_000 ann no_windows no_windows-IsLimited world digest "call-1"
      empty_storage true false (some request)

run-Follows_example : Follows begun (run begun frames)
run-Follows_example = run-Follows begun frames

prune_stale_rate_limit_keys-read_live_rate_limit_stamps_example :
    read_live_rate_limit_stamps "ann" 3_700_000 (prune_stale_rate_limit_keys 3_650_000 windows)
    ≡ read_live_rate_limit_stamps "ann" 3_700_000 windows
prune_stale_rate_limit_keys-read_live_rate_limit_stamps_example =
    prune_stale_rate_limit_keys-read_live_rate_limit_stamps "ann" 3_650_000 3_700_000 windows
      (omega arith)

record_rate_limit_hit-read_live_rate_limit_stamps_example :
    read_live_rate_limit_stamps "ann" 3_700_000 (
      record_rate_limit_hit "ann"
        (read_live_rate_limit_stamps "ann" 3_650_000 windows)
        3_650_000
        windows)
    ≡ read_live_rate_limit_stamps "ann" 3_700_000 windows ++ (3_650_000 ∷ [])
record_rate_limit_hit-read_live_rate_limit_stamps_example =
    record_rate_limit_hit-read_live_rate_limit_stamps "ann" "ann" 3_650_000 3_700_000 windows
      (omega arith)
