-- ===== src/Cli/Listener/Replays.antt =====
-- packages/cli/src/listener-stages.ts: what has passed when an inbound envelope is open, and that it
-- is open once.
use agentcall.Base.{
  ℕ, Bool, true, Option, none, some, String, List, ◌≡◌, ◌≢◌, refl, sym, ap, ◌∙◌, subst, arith,
}
use agentcall.Shared.Envelope.{HpkeEnvelopeHeader, RequestPayload}
use agentcall.Cli.Peers
use agentcall.Cli.Peers.{
  Bundle, EncryptionKeyRecord, IdentityRecord, KnownPeer, verify_and_pin_peer,
}
use agentcall.Cli.Replay
use agentcall.Cli.Replay.{ReplayReservation, Reservation, is_retained, reserve_replay}
use agentcall.Cli.Replay.Memory.{AllWithin, reserve_replay-reserve_replay, run}
use agentcall.Cli.Sealing.{Crypto, HpkeEnvelope, Kind, OpenError, Result, ok, threw, open_signed}
use agentcall.Cli.Sealing.Opening.{IsGenuine, open_signed-IsGenuine}
use agentcall.Cli.Listener.{
  InboundCall, OpenedEnvelope, Opened, StoredKeys, TrustStore, expected_route, open_from_peer,
  open_inbound_envelope, open_request, opened, reservation_of, reserve_request, open_with_keys,
  open_verified, open_bundle, settle_request,
}

reserve_request-opened :
    (before : ReplayReservation → ReplayReservation → Bool) (call : InboundCall)
    (found : OpenedEnvelope) (rs : List ReplayReservation) {x : OpenedEnvelope}
    → (reserve_request before call found rs).1 ≡ opened x
    → (found ≡ x)
      × ((call.reserve ≡ true)
          → (reserve_request before call found rs).0
              ≡ (reserve_replay before
                  (reservation_of found.caller_peer found.request)
                  call.reserved_at
                  rs).0
            × ((reserve_replay before
                  (reservation_of found.caller_peer found.request)
                  call.reserved_at
                  rs).1
                ≡ Replay.reserved))
unfolding reserve_request
reserve_request-opened before call found rs h = (ground arith, λ k. (ground arith, ground arith))

module _ (fingerprint : IdentityRecord → String)
    (signed_by : String → EncryptionKeyRecord → String → Bool) (crypto : Crypto)
    (formats : HpkeEnvelopeHeader → Bool) (sized : HpkeEnvelope → Bool) (kind : Kind RequestPayload)
    (before : ReplayReservation → ReplayReservation → Bool) where
  -- The keys and the envelope that an open request came through.
  pub record Came (call : InboundCall) (peer : KnownPeer) (x : OpenedEnvelope) : Type 0 where
    pub envelope : HpkeEnvelope
    pub given : call.envelope ≡ some envelope
    pub keys : call.keys_for_epoch envelope.header.epoch ≡ some x.local_keys
    pub from_peer : x.caller_peer ≡ peer
    pub request :
        open_signed crypto formats sized kind
          (some envelope)
          x.local_keys.encryption_pkcs8
          peer.identity_pub
          (expected_route crypto call x.local_keys)
          call.opened_at
        ≡ ok x.request

  settle_request-opened :
      (call : InboundCall) (bundle : Bundle) (peer : KnownPeer) (keys : StoredKeys)
      (rs : List ReplayReservation) (result : Result OpenError RequestPayload) (x : OpenedEnvelope)
      → (settle_request before call bundle peer keys rs result).1 ≡ opened x
      → (x.local_keys ≡ keys)
        × (x.caller_peer ≡ peer)
        × (result ≡ ok x.request)
        × (settle_request before call bundle peer keys rs result ≡ reserve_request before call x rs)
  unfolding settle_request
  settle_request-opened call bundle peer keys rs (threw error) x h = absurd (ground arith)
  settle_request-opened call bundle peer keys rs (ok request) x h =
      let found : OpenedEnvelope = record {
        request = request;
        caller_bundle = bundle;
        caller_peer = peer;
        local_keys = keys;
      } in
      let same : found ≡ x = (reserve_request-opened before call found rs h).0 in
      (
        ap (λ o. o.local_keys) (sym same),
        ap (λ o. o.caller_peer) (sym same),
        ap (λ o. ok o.request) same,
        ap (λ o. reserve_request before call o rs) same,
      )

  abbrev outcome :
      InboundCall → Bundle → KnownPeer → List ReplayReservation → List ReplayReservation × Opened
  outcome call bundle peer rs =
      open_from_peer fingerprint signed_by crypto formats sized kind before call bundle peer rs
        call.envelope

  step-keys :
      (call : InboundCall) (bundle : Bundle) (peer : KnownPeer) (rs : List ReplayReservation)
      (envelope : HpkeEnvelope) (keys : Option StoredKeys) (x : OpenedEnvelope)
      → (open_with_keys fingerprint signed_by crypto formats sized kind before call bundle peer rs
          envelope keys).1
        ≡ opened x
      → (keys ≡ some x.local_keys)
        × (x.caller_peer ≡ peer)
        × (open_request fingerprint signed_by crypto formats sized kind before call envelope
              x.local_keys peer
            ≡ ok x.request)
        × (open_with_keys fingerprint signed_by crypto formats sized kind before call bundle peer rs
              envelope keys
            ≡ reserve_request before call x rs)
  unfolding open_with_keys
  step-keys call bundle peer rs envelope none x h = absurd (ground arith)
  step-keys call bundle peer rs envelope (some keys) x h =
      let request =
        open_request fingerprint signed_by crypto formats sized kind before call envelope keys
          peer in
      let (same, from, got, settled) = settle_request-opened call bundle peer keys rs request x h in
      (ap some (sym same), from, rw same got, settled)

  step-envelope :
      (call : InboundCall) (bundle : Bundle) (peer : KnownPeer) (rs : List ReplayReservation)
      (given : Option HpkeEnvelope) (x : OpenedEnvelope)
      → call.envelope ≡ given
      → (open_from_peer fingerprint signed_by crypto formats sized kind before call bundle peer rs
          given).1
        ≡ opened x
      → Came call peer x
        × (open_from_peer fingerprint signed_by crypto formats sized kind before call bundle peer rs
              given
            ≡ reserve_request before call x rs)
  unfolding open_from_peer open_request
  step-envelope call bundle peer rs none x e h = absurd (ground arith)
  step-envelope call bundle peer rs (some envelope) x e h =
      let (keys, from, request, settled) =
        step-keys call bundle peer rs envelope (call.keys_for_epoch envelope.header.epoch) x h in
      (
        record { envelope = envelope; given = e; keys = keys; from_peer = from; request = request },
        settled,
      )

  verified-opened :
      (call : InboundCall) (bundle : Bundle) (peers : List KnownPeer) (rs : List ReplayReservation)
      (result : Peers.Verification) (x : OpenedEnvelope)
      → (open_verified fingerprint signed_by crypto formats sized kind before call bundle peers rs
          result).1
        ≡ opened x
      → (result ≡ Peers.verified x.caller_peer)
        × Came call x.caller_peer x
        × ((open_verified fingerprint signed_by crypto formats sized kind before call bundle peers
              rs result).0.reservations
            ≡ (reserve_request before call x rs).0)
        × ((reserve_request before call x rs).1 ≡ opened x)
  unfolding open_verified
  verified-opened call bundle peers rs (Peers.rejected error) x h = absurd (ground arith)
  verified-opened call bundle peers rs (Peers.verified peer) x h =
      let (came, settled) = step-envelope call bundle peer rs call.envelope x refl h in
      (
        ap Peers.verified (sym came.from_peer),
        subst (λ q. Came call q x) (sym came.from_peer) came,
        ap (λ o. o.0) settled,
        ap (λ o. o.1) (sym settled) ∙ h,
      )

  -- Everything that stands behind an open envelope.
  pub record IsAdmitted (call : InboundCall) (store : TrustStore) (x : OpenedEnvelope)
      : Type 0 where
    pub bundle : Bundle
    pub fetched : call.fetched ≡ some bundle
    pub pinned :
        (verify_and_pin_peer fingerprint signed_by call.from_address bundle call.pinned_at
          store.peers).1
        ≡ Peers.verified x.caller_peer
    pub genuine :
        IsGenuine crypto formats sized kind x.caller_peer.identity_pub
          (expected_route crypto call x.local_keys)
          call.opened_at
          x.request
    pub once :
        (call.reserve ≡ true)
        → (reserve_replay before
            (reservation_of x.caller_peer x.request)
            call.reserved_at
            store.reservations).1
          ≡ Replay.reserved

  bundle-opened :
      (call : InboundCall) (store : TrustStore) (fetched : Option Bundle) (x : OpenedEnvelope)
      → call.fetched ≡ fetched
      → (open_bundle fingerprint signed_by crypto formats sized kind before call store fetched).1
        ≡ opened x
      → IsAdmitted call store x
        × ((open_bundle fingerprint signed_by crypto formats sized kind before call store
              fetched).0.reservations
            ≡ (reserve_request before call x store.reservations).0)
        × ((reserve_request before call x store.reservations).1 ≡ opened x)
  unfolding open_bundle
  bundle-opened call store none x e h = absurd (ground arith)
  bundle-opened call store (some bundle) x e h =
      let pinned =
        verify_and_pin_peer fingerprint signed_by call.from_address bundle call.pinned_at
          store.peers in
      let (verified, came, kept, reserved) =
        verified-opened call bundle pinned.0 store.reservations pinned.1 x h in
      (
        record {
          bundle = bundle;
          fetched = e;
          pinned = verified;
          genuine =
              open_signed-IsGenuine crypto formats sized kind came.envelope
                x.local_keys.encryption_pkcs8 x.caller_peer.identity_pub
                (expected_route crypto call x.local_keys) call.opened_at x.request came.request;
          once = λ k. ((reserve_request-opened before call x store.reservations reserved).1 k).1;
        },
        kept,
        reserved,
      )

  abbrev inbound : InboundCall → TrustStore → TrustStore × Opened
  inbound = open_inbound_envelope fingerprint signed_by crypto formats sized kind before

  -- A request whose envelope was opened is not opened again, when both calls reserve their requests
  -- (a durable call that the journal guards does not): whatever is reserved in between, an envelope
  -- that comes before the reservation is over does not open to a request with the same id from the
  -- same identity.
  pub open_inbound_envelope-once :
      (call again : InboundCall) (store : TrustStore) (x y : OpenedEnvelope)
      (rs : List (ReplayReservation × ℕ)) (peers : List KnownPeer)
      → (inbound call store).1 ≡ opened x
      → call.reserve ≡ true
      → again.reserve ≡ true
      → AllWithin before (reservation_of x.caller_peer x.request) rs
      → is_retained again.reserved_at (reservation_of x.caller_peer x.request) ≡ true
      → y.caller_peer.fingerprint ≡ x.caller_peer.fingerprint
      → y.request.inner.request_id ≡ x.request.inner.request_id
      → (inbound again (record {
        peers = peers;
        reservations = run before rs (inbound call store).0.reservations;
      })).1
        ≢ opened y
  unfolding open_inbound_envelope
  open_inbound_envelope-once call again store x y rs peers h k k' within kept same_sender same_id
        g =
      let r = reservation_of x.caller_peer x.request in
      let (admitted, left, reserved) = bundle-opened call store call.fetched x refl h in
      let (stored, accepted) =
        (reserve_request-opened before call x store.reservations reserved).1 k in
      let store' : TrustStore = record {
        peers = peers;
        reservations = run before rs (inbound call store).0.reservations;
      } in
      let once : (reserve_replay before (reservation_of y.caller_peer y.request) again.reserved_at
            (run before rs (inbound call store).0.reservations)).1
          ≡ Replay.reserved =
        (bundle-opened again store' again.fetched y refl g).0.once k' in
      reserve_replay-reserve_replay before r (reservation_of y.caller_peer y.request)
        call.reserved_at again.reserved_at store.reservations rs accepted same_sender same_id within
        kept
        (subst
          (λ kept_now.
            (reserve_replay before (reservation_of y.caller_peer y.request) again.reserved_at
              (run before rs kept_now)).1
            ≡ Replay.reserved)
          (left ∙ stored) once)
