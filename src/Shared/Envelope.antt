-- ===== src/Shared/Envelope.antt =====
-- packages/shared/src/e2ee.ts: the payloads that are sealed and what of them is signed. The formats
-- of single fields, which zod checks, are a parameter.
pub mod Transcripts
use agentcall.Base.{
  ℕ, ◌-◌, ◌<◌, Bool, true, false, ◌&&◌, not, Option, none, some, String, List, [], ◌∷◌, ◌++◌, leb,
  ltb, if◌then◌else◌, length, map, get_or, is_some,
}
use agentcall.Shared.Limits.{mailbox_ttl_ms, relay_call_timeout_ms}
use agentcall.Shared.Canonical.{CanonicalValue, text, number, null, pos, canonical_encode}

pub data DeliveryMode : Type 0 where
  sync durable : DeliveryMode

-- `InnerBase`; `v` is 1.
pub record Inner : Type 0 where
  pub relay_origin : String
  pub from : String
  pub to : String
  pub message_id : Option String
  pub delivery_mode : Option DeliveryMode
  pub request_id : String
  pub sender_identity_key_id : String
  pub recipient_encryption_key_id : String
  pub recipient_epoch : ℕ
  pub issued_at : ℕ
  pub expires_at : ℕ

pub record RequestPayload : Type 0 where
  pub inner : Inner
  pub task : Option String
  pub context_id : Option String
  pub message : String

pub data Outcome : Type 0 where
  reply : String → Option String → Option String → Outcome
  failure : String → Option String → Option (List String) → Outcome

pub record ResponsePayload : Type 0 where
  pub inner : Inner
  pub request_transcript_hash : String
  pub outcome : Outcome

abbrev pub mode_is_durable : Option DeliveryMode → Bool
mode_is_durable (some durable) = true
mode_is_durable (some sync) = false
mode_is_durable none = false

abbrev pub is_durable : Inner → Bool
is_durable p = mode_is_durable p.delivery_mode

-- The refinement of both payloads.
unfoldable pub validity_holds : Inner → Bool
validity_holds p =
    let maximum = if is_durable p then mailbox_ttl_ms else relay_call_timeout_ms in
    not (is_durable p && not (is_some p.message_id))
    && ltb p.issued_at p.expires_at
    && leb (p.expires_at - p.issued_at) maximum

-- `value ?? null`
abbrev pub text_or_null : Option String → CanonicalValue
text_or_null none = null
text_or_null (some s) = text s

-- The values from the version to the expiry, behind the label.
abbrev pub inner_values : String → Inner → List CanonicalValue → List CanonicalValue
inner_values direction p rest =
    let ids =
      text p.request_id
      ∷ text p.sender_identity_key_id
      ∷ text p.recipient_encryption_key_id
      ∷ number (pos p.recipient_epoch)
      ∷ number (pos p.issued_at)
      ∷ number (pos p.expires_at)
      ∷ rest in
    number (pos 1)
    ∷ text direction
    ∷ text p.relay_origin
    ∷ text p.from
    ∷ text p.to
    ∷ (if is_durable p then text (get_or p.message_id "") ∷ ids else ids)

abbrev pub durable_mark : Inner → List CanonicalValue
durable_mark p = if is_durable p then text "durable" ∷ [] else []

abbrev pub label : Inner → String → String → CanonicalValue
label p sync_label durable_label = text (if is_durable p then durable_label else sync_label)

unfoldable pub request_values : RequestPayload → List CanonicalValue
request_values p =
    label p.inner "agentcall/request/v1" "agentcall/request/v2"
    ∷ inner_values "request" p.inner
        (text_or_null p.task ∷ text_or_null p.context_id ∷ text p.message ∷ durable_mark p.inner)

unfoldable pub outcome_values : Outcome → List CanonicalValue
outcome_values (reply words context_id task) =
    text "reply" ∷ text words ∷ text_or_null context_id ∷ text_or_null task ∷ []
outcome_values (failure code detail offered) =
    let tasks = get_or offered [] in
    text "failure" ∷ text code ∷ text_or_null detail ∷ number (pos (length tasks)) ∷ map text tasks

unfoldable pub response_values : ResponsePayload → List CanonicalValue
response_values p =
    label p.inner "agentcall/response/v1" "agentcall/response/v2"
    ∷ inner_values "response" p.inner
        (text p.request_transcript_hash ∷ (outcome_values p.outcome ++ durable_mark p.inner))

-- `none` where the code throws.
unfoldable pub request_transcript : (RequestPayload → Bool) → RequestPayload → Option (List ℕ)
request_transcript formats p =
    if formats p && validity_holds p.inner then canonical_encode (request_values p) else none

unfoldable pub response_transcript : (ResponsePayload → Bool) → ResponsePayload → Option (List ℕ)
response_transcript formats p =
    if formats p && validity_holds p.inner then canonical_encode (response_values p) else none

pub data Direction : Type 0 where
  request response : Direction

abbrev pub direction_name : Direction → String
direction_name request = "request"
direction_name response = "response"

pub record HpkeEnvelopeHeader : Type 0 where
  pub direction : Direction
  pub relay_origin : String
  pub from : String
  pub to : String
  pub key_id : String
  pub epoch : ℕ

unfoldable pub header_values : HpkeEnvelopeHeader → List CanonicalValue
header_values h =
    text "agentcall/hpke-aad/v1"
    ∷ number (pos 1)
    ∷ text (direction_name h.direction)
    ∷ text h.relay_origin
    ∷ text h.from
    ∷ text h.to
    ∷ text h.key_id
    ∷ number (pos h.epoch)
    ∷ []

unfoldable pub hpke_envelope_aad :
    (HpkeEnvelopeHeader → Bool) → HpkeEnvelopeHeader → Option (List ℕ)
hpke_envelope_aad formats h = if formats h then canonical_encode (header_values h) else none
