-- ===== src/Examples/Stores.antt =====
-- The theorems on the stores of an installation, at work.
use agentcall.Base.{
  ◌⊎◌, inl, ℕ, ◌≤◌, ◌≡◌, ◌≢◌, Bool, true, none, some, String, List, [], ◌∷◌, refl, arith, length,
  ltb, ◌==◌, string_eq,
}
use agentcall.Base.Map.{lookup}
use agentcall.Cli.Journal.{
  ExecutionRecord, claimed, decided, execute, claim_execution, mark_execution_started, transition,
}
use agentcall.Cli.Journal.Once.{
  Event, claims, ends, run, AllBefore, mark_execution_started-claim_execution,
}
use agentcall.Cli.Replay.{ReplayReservation, reserve_replay, reserved, max_replay_reservations}
use agentcall.Cli.Replay.Memory.{
  run as replays, AllWithin, reserve_replay-reserve_replay, length-reserve_replay,
}
use agentcall.Cli.Access.{
  Policy, Task, parsed, allowed, blocked, load_policy, resolve_task, validate_policy,
  validate_policy_assertions, access_for,
}
use agentcall.Cli.Access.Laws.{
  IsEnforceable, IsResolution, load_policy-IsEnforceable, resolve_task-IsResolution,
}
use agentcall.Cli.Peers.{
  KnownPeer, IdentityRecord, EncryptionKeyRecord, Bundle, verify_and_pin_peer, verify_known,
  inspect_peer_identity, matched,
}
use agentcall.Cli.Peers.Inspection.{verify_and_pin_peer-inspect_peer_identity}
use agentcall.Cli.Outbound.{OutboundJob, remember_outbound_job, job, pending}
use agentcall.Cli.Outbound.Memory.{remember_outbound_job-remember_outbound_job}
use agentcall.Cli.Peers.Pins.{run as verifications, run-verify_and_pin_peer}
use agentcall.Cli.Contexts.{
  prune_contexts, ContextBinding, AdmitInput, claude, admit_context, upsert_context,
}
use agentcall.Cli.Contexts.Pruning.{AllLive, RecentFirst, Stored, AllSince, prune_contexts-Stored}
use agentcall.Cli.Contexts.Laws.{IsFor, admit_context-IsFor, upsert_context-admit_context}

abbrev journal : List ExecutionRecord
journal =
    record {
      call_id = "call-1";
      request_envelope_sha256 = "aa";
      state = claimed;
      updated_at = 1_000;
      purge_after = 9_000;
    }
    ∷ []

abbrev events : List Event
events = claims "call-2" "bb" 3_000 ∷ ends "call-1" "aa" 4_000 ∷ claims "call-1" "cc" 5_000 ∷ []

mark_execution_started-claim_execution_example :
    (claim_execution "call-1" "aa" 6_000
      (run events (mark_execution_started "call-1" "aa" 2_000 journal).0)).1
    ≢ decided execute claimed
unfolding transition AllBefore
mark_execution_started-claim_execution_example =
    mark_execution_started-claim_execution "call-1" "aa" "aa" 2_000 6_000 journal _ events refl refl
      (omega arith, (omega arith, (omega arith, tt))) (omega arith)

abbrev request : ReplayReservation
request = record { sender_fingerprint = "f"; request_id = "1"; expires_at = 100_000 }

abbrev other_request : ReplayReservation
other_request = record { sender_fingerprint = "g"; request_id = "1"; expires_at = 90_000 }

abbrev by_expiry : ReplayReservation → ReplayReservation → Bool
by_expiry r s = ltb r.expires_at s.expires_at

reserve_replay-reserve_replay_example :
    (reserve_replay by_expiry request 60_000 (
      replays by_expiry
        ((other_request, 50_000) ∷ [])
        (reserve_replay by_expiry request 40_000 []).0)).1
    ≢ reserved
unfolding reserve_replay AllWithin
reserve_replay-reserve_replay_example =
    reserve_replay-reserve_replay by_expiry request request 40_000 60_000 []
      ((other_request, 50_000) ∷ []) refl refl refl (refl, tt) refl

length-reserve_replay_example :
    length (reserve_replay by_expiry request 40_000 (other_request ∷ [])).0
    ≤ max_replay_reservations
length-reserve_replay_example =
    length-reserve_replay by_expiry request 40_000 (other_request ∷ []) (omega arith)

abbrev policy : Policy
policy = record {
  description = "";
  default_access = allowed;
  callers = ("mallory", some blocked) ∷ [];
  offline_delivery = true;
  tests = some (record { caller = "mallory"; expect_access = blocked } ∷ []);
}

load_policy-IsEnforceable_example : IsEnforceable policy
unfolding load_policy validate_policy validate_policy_assertions access_for lookup
load_policy-IsEnforceable_example = load_policy-IsEnforceable (parsed policy) policy refl

abbrev tasks : List Task
tasks = record { id = "ask"; name = "Ask" } ∷ record { id = "review"; name = "Review" } ∷ []

resolve_task-IsResolution_example :
    IsResolution policy tasks "ann"
      (some "review")
      (resolve_task policy tasks "ann" (some "review"))
resolve_task-IsResolution_example = resolve_task-IsResolution policy tasks "ann" (some "review")

abbrev peer : KnownPeer
peer = record {
  relay_origin = "https://relay.example";
  address = "@acme/bob";
  identity_pub = "key-1";
  fingerprint = "key-1";
  first_seen_at = 0;
  highest_encryption_epoch = 3;
  call_count = 1;
}

abbrev bundle : String → ℕ → Bundle
bundle key epoch = record {
  identity = record {
    relay_origin = "https://relay.example";
    address = "@acme/bob";
    identity_pub = key;
  };
  encryption = record {
    address = "@acme/bob";
    epoch = epoch;
    not_before = 0;
    not_after = 9_000;
    key = "kem";
  };
  signature = key;
}

abbrev key_of : IdentityRecord → String
key_of i = i.identity_pub

abbrev signature_is_key : String → EncryptionKeyRecord → String → Bool
signature_is_key key r signature = key == signature

run-verify_and_pin_peer_example :
    ("key-1" ≡ peer.identity_pub)
    × (signature_is_key peer.identity_pub (bundle "key-1" 4).encryption "key-1" ≡ true)
    × (peer.highest_encryption_epoch ≤ 4)
unfolding verifications verify_and_pin_peer verify_known
run-verify_and_pin_peer_example =
    run-verify_and_pin_peer key_of signature_is_key "@acme/bob" peer _
      (("@acme/bob", bundle "key-2" 9, 1_000) ∷ []) (bundle "key-1" 4) 2_000 (peer ∷ []) refl refl

abbrev binding : ContextBinding
binding = record {
  context_id = "ctx_1";
  agent_session_id = "session";
  caller = "ann";
  task = "ask";
  agent_kind = claude;
  workdir = "/work";
  turns = 2;
  created_at = 0;
  last_used_at = 5_000;
}

abbrev resumption : AdmitInput
resumption = record {
  context_id = "ctx_1";
  caller = "ann";
  task = "ask";
  agent_kind = claude;
  workdir = "/work";
  now = 6_000;
}

admit_context-IsFor_example : IsFor resumption binding
unfolding admit_context
admit_context-IsFor_example = admit_context-IsFor (binding ∷ []) resumption binding refl

upsert_context-admit_context_example :
    admit_context (upsert_context [] binding) resumption ≡ some binding
upsert_context-admit_context_example = upsert_context-admit_context [] binding resumption

verify_and_pin_peer-inspect_peer_identity_example :
    inspect_peer_identity key_of signature_is_key "@acme/bob" (bundle "key-1" 4) 2_000 (peer ∷ [])
    ≡ matched "key-1" "key-1"
unfolding verify_and_pin_peer verify_known
verify_and_pin_peer-inspect_peer_identity_example =
    verify_and_pin_peer-inspect_peer_identity key_of signature_is_key "@acme/bob" (bundle "key-1" 4)
      2_000 (peer ∷ []) _ refl

abbrev sent : ℕ → OutboundJob
sent at = record {
  message_id = "message-1";
  relay = "https://relay.example";
  address = "@acme/bob";
  frame = "ciphertext";
  request_id = "r";
  request_transcript_hash = "h";
  recipient_identity_pub = "key-1";
  sender_epoch = 1;
  created_at = at;
  expires_at = 9_000;
  state = pending;
  task_id = none;
  submitted_at = none;
}

remember_outbound_job-remember_outbound_job_example :
    remember_outbound_job (sent 2_000) (remember_outbound_job (sent 1_000) []).0
    ≡ ((remember_outbound_job (sent 1_000) []).0, job (sent 1_000))
unfolding remember_outbound_job
remember_outbound_job-remember_outbound_job_example =
    remember_outbound_job-remember_outbound_job (sent 1_000) (sent 2_000) [] refl refl refl
      (omega arith) (omega arith)

prune_contexts-Stored_example :
    AllLive 6_000 (prune_contexts (binding ∷ []) 6_000)
    × RecentFirst (prune_contexts (binding ∷ []) 6_000)
    × (Stored binding (prune_contexts (binding ∷ []) 6_000)
        ⊎ ((length (prune_contexts (binding ∷ []) 6_000) ≡ 100)
            × AllSince binding (prune_contexts (binding ∷ []) 6_000)))
prune_contexts-Stored_example =
    prune_contexts-Stored (binding ∷ []) 6_000 binding (inl refl) (omega arith)
