-- ===== src/Cli/Sealing.antt =====
-- packages/cli/src/e2ee.ts: payloads are signed and sealed, and opened with every check. HPKE, the
-- digest of a key, signatures and zod's parsing are parameters.
pub mod Opening
pub mod RoundTrip
use agentcall.Base.{
  ℕ, ◌+◌, Bool, true, false, ◌&&◌, ◌||◌, not, Option, none, some, String, List, [], ◌∷◌, ◌==◌, leb,
  ltb, if◌then◌else◌, string_eq, nat_eq,
}
use agentcall.Shared.Envelope.{
  DeliveryMode, Direction, HpkeEnvelopeHeader, Inner, RequestPayload, ResponsePayload,
  hpke_envelope_aad, request, response, sync, durable,
}

pub record HpkeEnvelope : Type 0 where
  pub header : HpkeEnvelopeHeader
  pub enc : String
  pub ct : String

-- `suite`, `keyIdFor`, `signTranscript` and `verifyTranscript`. A key that cannot be imported opens
-- nothing, and signs to nothing that verifies.
pub record Crypto : Type 0 where
  pub key_id_for : String → String
  pub hpke_seal : String → String → String → List ℕ → String × String
  pub hpke_open : String → String → String × String → List ℕ → Option String
  pub sign_transcript : String → List ℕ → String
  pub verify_transcript : String → List ℕ → String → Bool

-- What differs between requests and responses: `SignedE2EERequest`, `requestTranscript` and
-- `E2EE_REQUEST_INFO`, or theirs.
pub record Kind (P : Type 0) : Type 0 where
  pub direction : Direction
  pub info : String
  pub inner : P → Inner
  pub transcript : P → Option (List ℕ)
  pub print_signed : P → String → String
  pub parse_signed : String → Option (P × String)

pub record SealIdentity : Type 0 where
  pub identity_pub : String
  pub identity_pkcs8 : String

pub record RecipientEncryptionKey : Type 0 where
  pub public : String
  pub key_id : String
  pub epoch : ℕ

pub record ExpectedEnvelope : Type 0 where
  pub relay_origin : String
  pub from : String
  pub to : String
  pub key_id : String
  pub epoch : ℕ

pub data SealError : Type 0 where
  recipient_key_id sender_key_id recipient_mismatch no_transcript no_envelope : SealError

pub data OpenError : Type 0 where
  malformed direction_mismatch : OpenError
  route_mismatch : String → OpenError
  not_opened header_mismatch other_sender untranscribed bad_signature expired from_future unbound :
      OpenError

pub data Result (E A : Type 0) : Type 0 where
  ok : A → Result E A
  threw : E → Result E A

abbrev pub same_direction : Direction → Direction → Bool
same_direction request request = true
same_direction response response = true
same_direction request response = false
same_direction response request = false

abbrev pub same_mode : Option DeliveryMode → Option DeliveryMode → Bool
same_mode none none = true
same_mode (some sync) (some sync) = true
same_mode (some durable) (some durable) = true
same_mode _ _ = false

-- `assertHeaderMatchesPayload`
unfoldable pub header_matches : HpkeEnvelopeHeader → Direction → Inner → Bool
header_matches header direction p =
    same_direction direction header.direction
    && p.relay_origin == header.relay_origin
    && p.from == header.from
    && p.to == header.to
    && p.recipient_encryption_key_id == header.key_id
    && p.recipient_epoch == header.epoch

-- The first field of the route that differs.
unfoldable pub route_error : HpkeEnvelopeHeader → ExpectedEnvelope → Option String
route_error header expected =
    if not (header.relay_origin == expected.relay_origin)
    then some "relay_origin"
    else if not (header.from == expected.from)
    then some "from"
    else if not (header.to == expected.to)
    then some "to"
    else if not (header.key_id == expected.key_id)
    then some "key_id"
    else if not (header.epoch == expected.epoch)
    then some "epoch"
    else none

-- `assertCurrent`
unfoldable pub current_error : Inner → ℕ → Option OpenError
current_error p now =
    if leb p.expires_at now
    then some expired
    else if ltb (now + 120_000) p.issued_at
    then some from_future
    else none

abbrev pub sealed_header : Direction → Inner → RecipientEncryptionKey → HpkeEnvelopeHeader
sealed_header direction p recipient = record {
  direction = direction;
  relay_origin = p.relay_origin;
  from = p.from;
  to = p.to;
  key_id = recipient.key_id;
  epoch = recipient.epoch;
}

-- `formats` is the check of `HpkeEnvelopeHeader.parse`, `sized` that of `HpkeEnvelope.parse`.
module _ (crypto : Crypto) (formats : HpkeEnvelopeHeader → Bool) (sized : HpkeEnvelope → Bool)
    {P : Type 0} (kind : Kind P) where
  unfoldable pub seal_header :
      P → String → HpkeEnvelopeHeader → RecipientEncryptionKey → Result SealError HpkeEnvelope
  seal_header payload signature header recipient = elim (hpke_envelope_aad formats header) [
    | none ↦ threw no_envelope
    | some aad ↦
        let sealed =
          crypto.hpke_seal recipient.public kind.info (kind.print_signed payload signature) aad in
        let envelope : HpkeEnvelope = record { header = header; enc = sealed.0; ct = sealed.1 } in
        if sized envelope then ok envelope else threw no_envelope
  ]

  unfoldable pub seal_signed :
      P → SealIdentity → RecipientEncryptionKey → Result SealError HpkeEnvelope
  seal_signed payload sender recipient =
      let p = kind.inner payload in
      if not (recipient.key_id == crypto.key_id_for recipient.public)
      then threw recipient_key_id
      else if not (p.sender_identity_key_id == crypto.key_id_for sender.identity_pub)
      then threw sender_key_id
      else if not (p.recipient_encryption_key_id == recipient.key_id)
          || not (p.recipient_epoch == recipient.epoch)
      then threw recipient_mismatch
      else elim (kind.transcript payload) [
        | none ↦ threw no_transcript
        | some transcript ↦
            seal_header payload (crypto.sign_transcript sender.identity_pkcs8 transcript)
              (sealed_header kind.direction p recipient) recipient
      ]

  -- The checks on what was opened.
  unfoldable pub check_signed : HpkeEnvelopeHeader → String → ℕ → P × String → Result OpenError P
  check_signed header pinned now (payload, signature) =
      let p = kind.inner payload in
      if not (header_matches header kind.direction p)
      then threw header_mismatch
      else if not (p.sender_identity_key_id == crypto.key_id_for pinned)
      then threw other_sender
      else elim (kind.transcript payload) [
        | none ↦ threw untranscribed
        | some transcript ↦
            if not (crypto.verify_transcript pinned transcript signature)
            then threw bad_signature
            else elim (current_error p now) [ none ↦ ok payload | some error ↦ threw error ]
      ]

  unfoldable pub hpke_opened : String → HpkeEnvelope → Option (P × String)
  hpke_opened pkcs8 envelope = elim (hpke_envelope_aad formats envelope.header) [
    | none ↦ none
    | some aad ↦ elim (crypto.hpke_open pkcs8 kind.info (envelope.enc, envelope.ct) aad) [
      | none ↦ none
      | some plaintext ↦ kind.parse_signed plaintext
    ]
  ]

  unfoldable pub open_signed :
      Option HpkeEnvelope → String → String → ExpectedEnvelope → ℕ → Result OpenError P
  open_signed none pkcs8 pinned expected now = threw malformed
  open_signed (some envelope) pkcs8 pinned expected now =
      if not (same_direction envelope.header.direction kind.direction)
      then threw direction_mismatch
      else elim (route_error envelope.header expected) [
        | some field ↦ threw (route_mismatch field)
        | none ↦ elim (hpke_opened pkcs8 envelope) [
          | none ↦ threw not_opened
          | some signed ↦ check_signed envelope.header pinned now signed
        ]
      ]

pub record ExpectedResponseBinding : Type 0 where
  pub message_id : String
  pub request_id : String
  pub request_transcript_hash : String
  pub delivery_mode : Option DeliveryMode

abbrev pub same_id : Option String → String → Bool
same_id none id = false
same_id (some own) id = own == id

abbrev pub binds : ResponsePayload → ExpectedResponseBinding → Bool
binds p expected =
    same_id p.inner.message_id expected.message_id
    && p.inner.request_id == expected.request_id
    && p.request_transcript_hash == expected.request_transcript_hash
    && same_mode p.inner.delivery_mode expected.delivery_mode

-- `openE2EEResponse`, on what `openSigned` gave
unfoldable pub open_e2ee_response :
    Result OpenError ResponsePayload → ExpectedResponseBinding → Result OpenError ResponsePayload
open_e2ee_response (threw error) expected = threw error
open_e2ee_response (ok payload) expected =
    if binds payload expected then ok payload else threw unbound
