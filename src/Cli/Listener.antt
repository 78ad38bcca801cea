-- ===== src/Cli/Listener.antt =====
-- packages/cli/src/listener-stages.ts: the stages between a frame from the relay and a run of the
-- agent. Each is composed of the operations that other modules define; what the network and the
-- files gave is an argument, `none` where the call throws.
pub mod Queue
pub mod Replays
pub mod Admission
use agentcall.Base.{
  ℕ, Bool, true, false, not, ◌&&◌, ◌||◌, Option, none, some, String, List, [], ◌∷◌, if◌then◌else◌,
}
use agentcall.Shared.Envelope.{HpkeEnvelopeHeader, RequestPayload}
use agentcall.Cli.Peers
use agentcall.Cli.Peers.{
  Bundle, EncryptionKeyRecord, IdentityRecord, KnownPeer, verify_and_pin_peer,
}
use agentcall.Cli.Replay
use agentcall.Cli.Replay.{ReplayReservation, Reservation, reserve_replay}
use agentcall.Cli.Sealing.{
  Crypto, ExpectedEnvelope, HpkeEnvelope, Kind, OpenError, Result, ok, threw, open_signed,
}

pub record StoredKeys : Type 0 where
  pub identity_pub : String
  pub identity_pkcs8 : String
  pub encryption_pub : String
  pub encryption_pkcs8 : String
  pub epoch : ℕ

-- What `openInboundEnvelope` is given, with the clock where each of its calls reads it.
pub record InboundCall : Type 0 where
  pub relay_origin : String
  pub from_address : String
  pub to_address : String
  pub fetched : Option Bundle
  pub envelope : Option HpkeEnvelope
  pub keys_for_epoch : ℕ → Option StoredKeys
  pub reserve : Bool
  pub pinned_at : ℕ
  pub opened_at : ℕ
  pub reserved_at : ℕ

-- The two files that it writes.
pub record TrustStore : Type 0 where
  pub peers : List KnownPeer
  pub reservations : List ReplayReservation

pub record OpenedEnvelope : Type 0 where
  pub request : RequestPayload
  pub caller_bundle : Bundle
  pub caller_peer : KnownPeer
  pub local_keys : StoredKeys

pub data OpenFailure : Type 0 where
  no_bundle no_envelope no_keys : OpenFailure
  not_trusted : Peers.PeerError → OpenFailure
  not_opened : OpenError → OpenFailure
  not_reserved : Reservation → OpenFailure

pub data Opened : Type 0 where
  opened : OpenedEnvelope → Opened
  failed : OpenFailure → Opened

abbrev pub reservation_of : KnownPeer → RequestPayload → ReplayReservation
reservation_of peer request = record {
  sender_fingerprint = peer.fingerprint;
  request_id = request.inner.request_id;
  expires_at = request.inner.expires_at;
}

abbrev pub expected_route : Crypto → InboundCall → StoredKeys → ExpectedEnvelope
expected_route crypto call keys = record {
  relay_origin = call.relay_origin;
  from = call.from_address;
  to = call.to_address;
  key_id = crypto.key_id_for keys.encryption_pub;
  epoch = keys.epoch;
}

unfoldable pub reserve_request :
    (ReplayReservation → ReplayReservation → Bool)
    → InboundCall
    → OpenedEnvelope
    → List ReplayReservation
    → List ReplayReservation × Opened
reserve_request before call found reservations =
    let reservation = reservation_of found.caller_peer found.request in
    let result = reserve_replay before reservation call.reserved_at reservations in
    if not call.reserve then (reservations, opened found) else elim result.1 [
      | Replay.reserved ↦ (result.0, opened found)
      | other ↦ (result.0, failed (not_reserved other))
    ]

unfoldable pub settle_request :
    (ReplayReservation → ReplayReservation → Bool)
    → InboundCall
    → Bundle
    → KnownPeer
    → StoredKeys
    → List ReplayReservation
    → Result OpenError RequestPayload
    → List ReplayReservation × Opened
settle_request before call bundle peer keys reservations (threw error) =
    (reservations, failed (not_opened error))
settle_request before call bundle peer keys reservations (ok request) =
    reserve_request before call
      (record { request = request; caller_bundle = bundle; caller_peer = peer; local_keys = keys })
      reservations

module _ (fingerprint : IdentityRecord → String)
    (signed_by : String → EncryptionKeyRecord → String → Bool) (crypto : Crypto)
    (formats : HpkeEnvelopeHeader → Bool) (sized : HpkeEnvelope → Bool) (kind : Kind RequestPayload)
    (before : ReplayReservation → ReplayReservation → Bool) where
  unfoldable pub open_request :
      InboundCall → HpkeEnvelope → StoredKeys → KnownPeer → Result OpenError RequestPayload
  open_request call envelope keys peer =
      open_signed crypto formats sized kind (some envelope) keys.encryption_pkcs8 peer.identity_pub
        (expected_route crypto call keys) call.opened_at

  unfoldable pub open_with_keys :
      InboundCall
      → Bundle
      → KnownPeer
      → List ReplayReservation
      → HpkeEnvelope
      → Option StoredKeys
      → List ReplayReservation × Opened
  open_with_keys call bundle peer reservations envelope none = (reservations, failed no_keys)
  open_with_keys call bundle peer reservations envelope (some keys) =
      settle_request before call bundle peer keys reservations
        (open_request call envelope keys peer)

  -- From the pinned peer on.
  unfoldable pub open_from_peer :
      InboundCall
      → Bundle
      → KnownPeer
      → List ReplayReservation
      → Option HpkeEnvelope
      → List ReplayReservation × Opened
  open_from_peer call bundle peer reservations none = (reservations, failed no_envelope)
  open_from_peer call bundle peer reservations (some envelope) =
      open_with_keys call bundle peer reservations envelope
        (call.keys_for_epoch envelope.header.epoch)

  unfoldable pub open_verified :
      InboundCall
      → Bundle
      → List KnownPeer
      → List ReplayReservation
      → Peers.Verification
      → TrustStore × Opened
  open_verified call bundle peers reservations (Peers.rejected error) =
      (record { peers = peers; reservations = reservations }, failed (not_trusted error))
  open_verified call bundle peers reservations (Peers.verified peer) =
      let result = open_from_peer call bundle peer reservations call.envelope in
      (record { peers = peers; reservations = result.0 }, result.1)

  unfoldable pub open_bundle : InboundCall → TrustStore → Option Bundle → TrustStore × Opened
  open_bundle call store none = (store, failed no_bundle)
  open_bundle call store (some bundle) =
      let pinned =
        verify_and_pin_peer fingerprint signed_by call.from_address bundle call.pinned_at
          store.peers in
      open_verified call bundle pinned.0 store.reservations pinned.1

  unfoldable pub open_inbound_envelope : InboundCall → TrustStore → TrustStore × Opened
  open_inbound_envelope call store = open_bundle call store call.fetched
