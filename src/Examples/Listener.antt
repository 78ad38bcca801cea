-- ===== src/Examples/Listener.antt =====
-- Concrete calls at a listener: an envelope that opens, a request that comes again, a queue, and a
-- caller's conversation.
use agentcall.Base.{
  Bool, true, false, none, some, String, [], ◌∷◌, ◌≡◌, ◌≢◌, refl, if◌then◌else◌, ◌==◌, string_eq,
  nat_eq, arith, ◌⊎◌, any,
}
use agentcall.Base.Map.{lookup}
use agentcall.Shared.Utf8.{utf8}
use agentcall.Shared.Canonical.{big_endian, canonical_encode, encode_value}
use agentcall.Shared.Envelope.{
  RequestPayload, header_values, hpke_envelope_aad, request, request_transcript, request_values,
  validity_holds,
}
use agentcall.Cli.Peers.{
  Bundle, IdentityRecord, EncryptionKeyRecord, new_peer, verify_and_pin_peer, verify_new,
}
use agentcall.Cli.Replay.{ReplayReservation, insert_sorted, reserve_replay, sort}
use agentcall.Cli.Replay.Memory.{AllWithin, run}
use agentcall.Cli.Sealing.{
  HpkeEnvelope, Kind, check_signed, current_error, header_matches, hpke_opened, open_signed,
  route_error,
}
use agentcall.Cli.Listener.{
  InboundCall, Opened, OpenedEnvelope, StoredKeys, TrustStore, open_bundle, open_from_peer,
  open_inbound_envelope, open_request, open_verified, open_with_keys, opened, reservation_of,
  reserve_request, settle_request,
}
use agentcall.Cli.Listener.Replays.{open_inbound_envelope-once}
use agentcall.Cli.Listener.Queue.{SerialQueue, empty_queue}
use agentcall.Cli.Listener.Queue.Line.{IsSound, Move, enqueue, line, step, step-Move}
use agentcall.Cli.Contexts.{
  claude, ContextBinding, admit_context, insert_recent, prune_contexts, sort_recent,
}
use agentcall.Cli.Contexts.Laws.{IsFor}
use agentcall.Cli.Access.{
  Task, access_for, default_policy, is_blocked, load_policy, resolve_task, validate_policy,
  validate_policy_assertions, absent,
}
use agentcall.Cli.Access.Laws.{IsEnforceable}
use agentcall.Cli.Guard.Scope
use agentcall.Cli.Guard.Scope.{Scope, ScopeFile, default_scope, load_scope, missing}
use agentcall.Cli.Listener.Admission.{
  BindingInput, admit_binding, admit_input, admitted, bound, resolve_admission, threading_available,
}
use agentcall.Cli.Listener.Admission.Resumed.{admit_binding-IsFor, resolve_admission-admitted}
use agentcall.Examples.Sealing.{any_request, asked, toy}

abbrev ask_kind : Kind RequestPayload
ask_kind = record {
  direction = request;
  info = "agentcall/v1/request";
  inner = λ p. p.inner;
  transcript = request_transcript any_request;
  print_signed = λ p signature. "sealed";
  parse_signed = λ plaintext. if plaintext == "sealed" then some (asked, "ann") else none;
}

abbrev ask_envelope : HpkeEnvelope
ask_envelope = record {
  header = record {
    direction = request;
    relay_origin = "relay";
    from = "@o/ann";
    to = "@o/bob";
    key_id = "bob";
    epoch = 1;
  };
  enc = "bob";
  ct = "sealed";
}

abbrev ann_bundle : Bundle
ann_bundle = record {
  identity = record { relay_origin = "relay"; address = "@o/ann"; identity_pub = "ann" };
  encryption = record {
    address = "@o/ann";
    epoch = 4;
    not_before = 0;
    not_after = 9000;
    key = "k";
  };
  signature = "ann";
}

abbrev bob_keys : StoredKeys
bob_keys = record {
  identity_pub = "bob";
  identity_pkcs8 = "bob";
  encryption_pub = "bob";
  encryption_pkcs8 = "bob";
  epoch = 1;
}

abbrev call : InboundCall
call = record {
  relay_origin = "relay";
  from_address = "@o/ann";
  to_address = "@o/bob";
  fetched = some ann_bundle;
  envelope = some ask_envelope;
  keys_for_epoch = λ epoch. if epoch == 1 then some bob_keys else none;
  reserve = true;
  pinned_at = 1500;
  opened_at = 1500;
  reserved_at = 1500;
}

abbrev digest : IdentityRecord → String
digest r = r.identity_pub

abbrev signed_by : String → EncryptionKeyRecord → String → Bool
signed_by key r signature = signature == key

abbrev before : ReplayReservation → ReplayReservation → Bool
before r s = true

abbrev store : TrustStore
store = record { peers = []; reservations = [] }

abbrev inbound : InboundCall → TrustStore → TrustStore × Opened
inbound = open_inbound_envelope digest signed_by toy (λ h. true) (λ e. true) ask_kind before

abbrev found : OpenedEnvelope
found = record {
  request = asked;
  caller_bundle = ann_bundle;
  caller_peer = new_peer digest signed_by 1500 ann_bundle;
  local_keys = bob_keys;
}

call_opens : (inbound call store).1 ≡ opened found
unfolding open_inbound_envelope open_bundle open_verified open_from_peer open_with_keys open_request
    settle_request reserve_request reserve_replay sort insert_sorted verify_and_pin_peer verify_new
    open_signed hpke_opened check_signed route_error header_matches current_error request_transcript
    request_values validity_holds canonical_encode encode_value big_endian utf8 hpke_envelope_aad
    header_values
call_opens = refl

nothing_between : AllWithin before (reservation_of found.caller_peer asked) []
unfolding AllWithin
nothing_between = tt

-- The same envelope, half a second later.
abbrev again : InboundCall
again = record call { pinned_at = 2000; opened_at = 1999; reserved_at = 2000 }

open_inbound_envelope-once_example :
    (inbound again
      (record { peers = []; reservations = run before [] (inbound call store).0.reservations })).1
    ≢ opened found
open_inbound_envelope-once_example =
    open_inbound_envelope-once digest signed_by toy (λ h. true) (λ e. true) ask_kind before call
      again store found found [] [] call_opens refl refl nothing_between refl refl refl

abbrev busy : SerialQueue
busy = record empty_queue { jobs = "b" ∷ []; running_key = some "a" }

busy-IsSound : IsSound 1 busy
busy-IsSound = record { busy = λ e. absurd (ground arith); bounded = omega arith }

step-Move_example :
    IsSound 1 (step 1 busy (enqueue "c"))
    × Move 1
        (enqueue "c")
        false
        ("a" ∷ "b" ∷ [])
        (step 1 busy (enqueue "c")).closed
        (line (step 1 busy (enqueue "c")))
step-Move_example = step-Move 1 busy (enqueue "c") busy-IsSound

abbrev talk : ContextBinding
talk = record {
  context_id = "c1";
  agent_session_id = "s1";
  caller = "ann";
  task = "ask";
  agent_kind = claude;
  workdir = "/home/o";
  turns = 2;
  created_at = 0;
  last_used_at = 1000;
}

abbrev resume : BindingInput
resume = record {
  from = "ann";
  task_id = "ask";
  context_id = some "c1";
  threadable = true;
  agent_kind = claude;
  codex_can_thread = false;
  workdir = "/home/o";
  now = 2000;
}

talk_resumes : admit_binding resume (talk ∷ []) ≡ bound (talk ∷ []) (some talk)
unfolding admit_binding prune_contexts sort_recent insert_recent admit_context
talk_resumes = refl

admit_binding-IsFor_example :
    ((some talk ≡ none) × (resume.context_id ≡ none))
    ⊎ ((b : ContextBinding) × (id : String) × (some talk ≡ some b)
        × (resume.context_id ≡ some id)
        × (threading_available resume ≡ true)
        × IsFor (admit_input resume id) b)
admit_binding-IsFor_example =
    admit_binding-IsFor resume (talk ∷ []) (talk ∷ []) (some talk) talk_resumes

abbrev ask_task : Task
ask_task = record { id = "ask"; name = "Ask" }

ask_admitted :
    resolve_admission absent missing (some (ask_task ∷ [])) "ann" none
    ≡ admitted (some ask_task) default_policy default_scope
unfolding resolve_admission load_policy validate_policy validate_policy_assertions load_scope
    resolve_task access_for lookup
ask_admitted = refl

resolve_admission-admitted_example :
    (load_policy absent ≡ some default_policy)
    × IsEnforceable default_policy
    × (load_scope missing ≡ Scope.loaded default_scope)
    × (is_blocked (access_for default_policy "ann") ≡ false)
    × (ask_task.id == "ask" ≡ true)
    × (any (λ known. known.id == ask_task.id) (ask_task ∷ []) ≡ true)
resolve_admission-admitted_example =
    resolve_admission-admitted absent missing (some (ask_task ∷ [])) "ann" none ask_task
      default_policy default_scope ask_admitted
