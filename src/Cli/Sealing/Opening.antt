-- ===== src/Cli/Sealing/Opening.antt =====
-- packages/cli/src/e2ee.ts: what an opened payload has passed, and that a sealed one opens.
use agentcall.Base.{
  ℕ, ◌+◌, ◌<◌, ◌≤◌, Bool, true, Option, none, some, String, List, ◌==◌, string_eq, nat_eq, ◌≡◌,
  subst, refl, arith, inl, inr, Option-cases, eq_iff,
}
use agentcall.Shared.Envelope.{
  Direction, HpkeEnvelopeHeader, Inner, ResponsePayload, DeliveryMode, sync, durable,
}
use agentcall.Cli.Sealing.{
  Crypto, ExpectedEnvelope, ExpectedResponseBinding, HpkeEnvelope, Kind, OpenError, Result, binds,
  check_signed, current_error, header_matches, hpke_opened, ok, threw, open_e2ee_response,
  open_signed, route_error, same_mode, same_id,
}

-- A header that matches a payload and lies on the expected route carries the route to the payload.
route_of :
    (header : HpkeEnvelopeHeader) (expected : ExpectedEnvelope) (direction : Direction) (p : Inner)
    → route_error header expected ≡ none
    → header_matches header direction p ≡ true
    → (p.relay_origin ≡ expected.relay_origin)
      × (p.from ≡ expected.from)
      × (p.to ≡ expected.to)
      × (p.recipient_encryption_key_id ≡ expected.key_id)
      × (p.recipient_epoch ≡ expected.epoch)
unfolding route_error header_matches
route_of header expected direction p r m = (
  ground (
    arith,
    eq_iff header.relay_origin expected.relay_origin,
    eq_iff p.relay_origin header.relay_origin,
  ),
  ground (arith, eq_iff header.from expected.from, eq_iff p.from header.from),
  ground (arith, eq_iff header.to expected.to, eq_iff p.to header.to),
  ground (
    arith,
    eq_iff header.key_id expected.key_id,
    eq_iff p.recipient_encryption_key_id header.key_id,
  ),
  ground arith,
)

current_lem :
    (p : Inner) (now : ℕ)
    → current_error p now ≡ none
    → (now < p.expires_at) × (p.issued_at ≤ now + 120_000)
unfolding current_error
current_lem p now h = (ground arith, ground arith)

module _ (crypto : Crypto) (formats : HpkeEnvelopeHeader → Bool) (sized : HpkeEnvelope → Bool)
    {P : Type 0} (kind : Kind P) where
  -- What stands behind an accepted payload.
  pub record IsGenuine (pinned : String) (expected : ExpectedEnvelope) (now : ℕ) (payload : P)
      : Type 0 where
    pub relay_origin : (kind.inner payload).relay_origin ≡ expected.relay_origin
    pub from : (kind.inner payload).from ≡ expected.from
    pub to : (kind.inner payload).to ≡ expected.to
    pub key_id : (kind.inner payload).recipient_encryption_key_id ≡ expected.key_id
    pub epoch : (kind.inner payload).recipient_epoch ≡ expected.epoch
    pub sender : (kind.inner payload).sender_identity_key_id ≡ crypto.key_id_for pinned
    pub signed :
        (transcript : List ℕ) × (signature : String) × (kind.transcript payload ≡ some transcript)
        × (crypto.verify_transcript pinned transcript signature ≡ true)
    pub not_over : now < (kind.inner payload).expires_at
    pub not_early : (kind.inner payload).issued_at ≤ now + 120_000

  check_signed-parts :
      (header : HpkeEnvelopeHeader) (pinned : String) (now : ℕ) (given payload : P)
      (signature : String)
      → check_signed crypto formats sized kind header pinned now (given, signature) ≡ ok payload
      → (given ≡ payload)
        × (header_matches header kind.direction (kind.inner given) ≡ true)
        × ((kind.inner given).sender_identity_key_id == crypto.key_id_for pinned ≡ true)
        × ((transcript : List ℕ) × (kind.transcript given ≡ some transcript)
            × (crypto.verify_transcript pinned transcript signature ≡ true))
        × (current_error (kind.inner given) now ≡ none)
  unfolding check_signed
  check_signed-parts header pinned now given payload signature h =
      elim (Option-cases (kind.transcript given)) [
        | inl e ↦ absurd (ground arith)
        | inr (transcript, e) ↦ elim (Option-cases (current_error (kind.inner given) now)) [
          | inr (error, f) ↦ absurd (ground arith)
          | inl f ↦ (ground arith, ground arith, ground arith, (transcript, e, ground arith), f)
        ]
      ]

  open_signed-parts :
      (envelope : HpkeEnvelope) (pkcs8 pinned : String) (expected : ExpectedEnvelope) (now : ℕ)
      (payload : P)
      → open_signed crypto formats sized kind (some envelope) pkcs8 pinned expected now ≡ ok payload
      → (route_error envelope.header expected ≡ none)
        × ((signed : P × String) × (hpke_opened crypto formats sized kind pkcs8 envelope
              ≡ some signed)
            × (check_signed crypto formats sized kind envelope.header pinned now signed
                ≡ ok payload))
  unfolding open_signed
  open_signed-parts envelope pkcs8 pinned expected now payload h =
      elim (Option-cases (route_error envelope.header expected)) [
        | inr (field, e) ↦ absurd (ground arith)
        | inl e ↦ elim (Option-cases (hpke_opened crypto formats sized kind pkcs8 envelope)) [
          | inl f ↦ absurd (ground arith)
          | inr (signed, f) ↦ (e, (signed, f, ground arith))
        ]
      ]

  -- A payload that is opened is from the expected sender to the expected recipient at the expected
  -- relay, under the expected key and epoch; it names the pinned key as its sender's, a signature
  -- over its transcript verifies under that key, it has not expired, and it was issued at most two
  -- minutes ahead.
  pub open_signed-IsGenuine :
      (envelope : HpkeEnvelope) (pkcs8 pinned : String) (expected : ExpectedEnvelope) (now : ℕ)
      (payload : P)
      → open_signed crypto formats sized kind (some envelope) pkcs8 pinned expected now ≡ ok payload
      → IsGenuine pinned expected now payload
  open_signed-IsGenuine envelope pkcs8 pinned expected now payload h =
      let (route, (signed, opened, checked)) =
        open_signed-parts envelope pkcs8 pinned expected now payload h in
      let (same, matches, sender, signature, current) =
        check_signed-parts envelope.header pinned now signed.0 payload signed.1 checked in
      let routed =
        route_of envelope.header expected kind.direction (kind.inner signed.0) route matches in
      let times = current_lem (kind.inner signed.0) now current in
      subst (IsGenuine pinned expected now) same (record {
        relay_origin = routed.0;
        from = routed.1;
        to = routed.2;
        key_id = routed.3;
        epoch = routed.4;
        sender =
            (eq_iff (kind.inner signed.0).sender_identity_key_id (crypto.key_id_for pinned)).0
              sender;
        signed = (signature.0, signed.1, signature.1, signature.2);
        not_over = times.0;
        not_early = times.1;
      })

same_mode_sound : (a b : Option DeliveryMode) → same_mode a b ≡ true → a ≡ b
same_mode_sound none none h = refl
same_mode_sound none (some b) h = absurd (ground arith)
same_mode_sound (some a) none h = absurd (ground arith)
same_mode_sound (some sync) (some sync) h = refl
same_mode_sound (some sync) (some durable) h = absurd (ground arith)
same_mode_sound (some durable) (some sync) h = absurd (ground arith)
same_mode_sound (some durable) (some durable) h = refl

same_id_sound : (a : Option String) (b : String) → same_id a b ≡ true → a ≡ some b
same_id_sound none b h = absurd (ground arith)
same_id_sound (some a) b h = ground (arith, eq_iff a b)

module _ (crypto : Crypto) (formats : HpkeEnvelopeHeader → Bool) (sized : HpkeEnvelope → Bool)
    (kind : Kind ResponsePayload) where
  accepted :
      (opened : Result OpenError ResponsePayload) (expected : ExpectedResponseBinding)
      (payload : ResponsePayload)
      → open_e2ee_response opened expected ≡ ok payload
      → (opened ≡ ok payload) × (binds payload expected ≡ true)
  unfolding open_e2ee_response
  accepted (threw error) expected payload h = absurd (ground arith)
  accepted (ok given) expected payload h = (ground arith, ground arith)

  -- A response that is opened is genuine, and answers exactly the request that is waited for: it
  -- has its message id, its request id, the hash of its transcript and its delivery mode.
  pub open_e2ee_response-IsGenuine :
      (envelope : HpkeEnvelope) (pkcs8 pinned : String) (route : ExpectedEnvelope) (now : ℕ)
      (expected : ExpectedResponseBinding) (payload : ResponsePayload)
      → open_e2ee_response
          (open_signed crypto formats sized kind (some envelope) pkcs8 pinned route now)
          expected
        ≡ ok payload
      → IsGenuine crypto formats sized kind pinned route now payload
        × (payload.inner.message_id ≡ some expected.message_id)
        × (payload.inner.request_id ≡ expected.request_id)
        × (payload.request_transcript_hash ≡ expected.request_transcript_hash)
        × (payload.inner.delivery_mode ≡ expected.delivery_mode)
  open_e2ee_response-IsGenuine envelope pkcs8 pinned route now expected payload h =
      let (opened, bound) =
        accepted (open_signed crypto formats sized kind (some envelope) pkcs8 pinned route now)
          expected payload h in
      (
        open_signed-IsGenuine crypto formats sized kind envelope pkcs8 pinned route now payload
            opened,
        same_id_sound payload.inner.message_id expected.message_id (ground arith),
        ground (arith, eq_iff payload.inner.request_id expected.request_id),
        ground (arith, eq_iff payload.request_transcript_hash expected.request_transcript_hash),
        same_mode_sound payload.inner.delivery_mode expected.delivery_mode (ground arith),
      )
