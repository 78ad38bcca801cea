-- ===== src/Examples/Data.antt =====
-- A caller, a listener, and their mailbox.
use agentcall.Base.{true, false, none, some, String, List, [], ◌∷◌, string_eq}
use agentcall.Relay.Lifecycle.{CallLifecycle, LiveCallPhase, CallTerminalReason}
use agentcall.Relay.Lifecycle.Laws.{Event, advance, terminate}
use agentcall.Relay.Task.{Envelope, PersistedTask, Lease}
use agentcall.Relay.Store.{Storage}
use agentcall.Relay.Window.{Windows}
use agentcall.Relay.Mailbox.Dispatch.{Directory, ListenerAttachment, IncomingCall, leased_task}
use agentcall.Relay.Mailbox.Handler.{World}
use agentcall.Relay.Mailbox.Caller.{CallerAttachment, CallerFrame, caller_message, durable_task}
use agentcall.Relay.Mailbox.Quota.Steps.{empty_storage}

abbrev pub directory : Directory
directory = record {
  handles = λ org name. some (record { agent_id = some name; recovery_generation = 0 });
  cards = λ org agent. some (record { offline_delivery = true; blocked = [] });
  database_accepts = true;
  maintenance = none;
  meanwhile = λ s. s;
}

abbrev pub world : World
world = record { directory = directory; fresh_lease = "lease-1"; byte_length = λ e. 400 }

abbrev pub digest : Envelope → String
digest e = e.content

abbrev pub ann : CallerAttachment
ann = record {
  principal = record { organization = "acme"; participant = "ann"; credential_generation = 0 };
  from = "ann";
  org = "acme";
  to = "bob";
  actor_ip = none;
  actor_country = none;
  relay_origin = "https://relay.example";
  call_id = none;
  timeout_ms = none;
  credential_generation = some 0;
  from_agent_id = "ann";
  target_agent_id = "bob";
  mailbox_enabled = true;
  caller_blocked = false;
}

abbrev pub request : CallerFrame
request = record {
  envelope = record {
    relay_origin = "https://relay.example";
    from = "@acme/ann";
    to = "@acme/bob";
    content = "hello";
  };
  correlation_id = "correlation-1";
  durable = true;
  message_id = "message-1";
  traceparent = none;
}

abbrev pub no_windows : Windows
no_windows = record { stamps = []; pruned_at = none; maintenance = none }

abbrev pub bob : ListenerAttachment
bob = record {
  org = some "acme";
  handle = some "bob";
  actor_ip = none;
  actor_country = none;
  relay_origin = some "https://relay.example";
  mailbox_capable = true;
  listener_session_id = some "session-1";
  lease_ms = none;
  execution_timeout_ms = none;
}

abbrev pub waiting_task : PersistedTask
waiting_task = durable_task world.byte_length digest 1_000 "call-1" ann request

-- The mailbox with the call of `ann` in it.
abbrev pub mailbox : Storage
mailbox =
    (caller_message world digest 1_000 "call-1" false ann false (some request) no_windows
      empty_storage).storage

abbrev pub second_task : PersistedTask
second_task = durable_task world.byte_length digest 2_000 "call-2" ann request

abbrev pub delivery : IncomingCall
delivery = record {
  call_id = "call-1";
  from = "ann";
  envelope = request.envelope;
  message_id = "message-1";
  lease_id = "lease-1";
  execute_by = 259_201_000;
  correlation_id = "correlation-1";
  traceparent = none;
}

abbrev pub queued_mailbox : Storage
queued_mailbox = record empty_storage {
  calls = ("call-1", waiting_task) ∷ [];
  queue = ((1_000, "call-1"), "call-1") ∷ [];
}

abbrev pub a_lease : Lease
a_lease = record {
  lease_id = "lease-1";
  listener_session_id = "session-1";
  expires_at = 32_000;
  attempt = 1;
}

abbrev pub leased_call : PersistedTask
leased_call = leased_task 2_000 "lease-1" "session-1" 30_000 waiting_task

abbrev pub leased_mailbox : Storage
leased_mailbox = record empty_storage {
  calls = ("call-1", leased_call) ∷ [];
  active = some "call-1";
}

abbrev pub begun : CallLifecycle
begun = record {
  principal = record { organization = "acme"; participant = "ann"; credential_generation = 0 };
  phase = LiveCallPhase.submitted;
  deadline = 361_000;
  terminal = none;
}

abbrev pub frames : List Event
frames =
    advance LiveCallPhase.working
    ∷ advance LiveCallPhase.accepted
    ∷ terminate CallTerminalReason.canceled
    ∷ terminate CallTerminalReason.expired
    ∷ []

abbrev pub windows : Windows
windows = record {
  stamps = ("ann", 100 ∷ 3_600_000 ∷ []) ∷ ("zoe", 5 ∷ []) ∷ [];
  pruned_at = none;
  maintenance = none;
}
