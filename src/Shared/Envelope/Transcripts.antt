-- ===== src/Shared/Envelope/Transcripts.antt =====
-- packages/shared/src/e2ee.ts: what a signature over a transcript binds.
use agentcall.Base.{
  ℕ, Bool, false, Option, none, some, String, List, [], ◌∷◌, ◌++◌, map, get_or, ◌≡◌, ◌≢◌, refl, sym,
  ap, ◌∙◌, arith, All, eq_iff, ◌==◌, string_eq,
}
use mathlib.Core.List.{append_cancel_right}
use agentcall.Shared.Canonical.{CanonicalValue, text, canonical_encode}
use agentcall.Shared.Canonical.Injective.{Fits, canonical_encode_inj}
use agentcall.Shared.Envelope.{
  DeliveryMode, sync, durable, Inner, RequestPayload, Outcome, reply, failure, ResponsePayload,
  inner_values, label, outcome_values, durable_mark, request_transcript, request_values,
  response_transcript, response_values, text_or_null,
}

-- What the transcript holds of a payload: the message id and the mode only where it is durable.
abbrev pub signed_mode : Option DeliveryMode → Option DeliveryMode
signed_mode (some durable) = some durable
signed_mode (some sync) = none
signed_mode none = none

abbrev pub signed_id : Option DeliveryMode → Option String → String
signed_id (some durable) id = get_or id ""
signed_id (some sync) id = ""
signed_id none id = ""

abbrev pub signed_offer : Outcome → Outcome
signed_offer (failure code detail offered) = failure code detail (some (get_or offered []))
signed_offer (reply words context_id task) = reply words context_id task

-- Two payloads agree on everything that is signed.
abbrev pub SameInner : Inner → Inner → Type 0
SameInner p q =
    (signed_mode p.delivery_mode ≡ signed_mode q.delivery_mode)
    × (signed_id p.delivery_mode p.message_id ≡ signed_id q.delivery_mode q.message_id)
    × (p.relay_origin ≡ q.relay_origin)
    × (p.from ≡ q.from)
    × (p.to ≡ q.to)
    × (p.request_id ≡ q.request_id)
    × (p.sender_identity_key_id ≡ q.sender_identity_key_id)
    × (p.recipient_encryption_key_id ≡ q.recipient_encryption_key_id)
    × (p.recipient_epoch ≡ q.recipient_epoch)
    × (p.issued_at ≡ q.issued_at)
    × (p.expires_at ≡ q.expires_at)

text_or_null_inj : (a b : Option String) → text_or_null a ≡ text_or_null b → a ≡ b
text_or_null_inj none none h = refl
text_or_null_inj none (some b) h = absurd (ground arith)
text_or_null_inj (some a) none h = absurd (ground arith)
text_or_null_inj (some a) (some b) h = ground arith

-- The label tells the durable form from the other; behind it the rest can be read off.
inner_values_inj :
    (direction one two : String) (p q : Inner) (r s : List CanonicalValue)
    → one ≢ two
    → label p one two ∷ inner_values direction p r ≡ label q one two ∷ inner_values direction q s
    → SameInner p q × (r ≡ s)
inner_values_inj direction one two p q r s differ h = ground arith

-- Two requests agree on everything that their transcripts hold.
abbrev pub SameRequest : RequestPayload → RequestPayload → Type 0
SameRequest p q =
    SameInner p.inner q.inner
    × (p.task ≡ q.task)
    × (p.context_id ≡ q.context_id)
    × (p.message ≡ q.message)

abbrev pub SameResponse : ResponsePayload → ResponsePayload → Type 0
SameResponse p q =
    SameInner p.inner q.inner
    × (p.request_transcript_hash ≡ q.request_transcript_hash)
    × (signed_offer p.outcome ≡ signed_offer q.outcome)

texts_differ : (a b : String) → (a == b) ≡ false → a ≢ b
texts_differ a b h e = cc ((eq_iff a b).1 e)

request_values_inj : (p q : RequestPayload) → request_values p ≡ request_values q → SameRequest p q
unfolding request_values
request_values_inj p q h =
    let (same, rest) =
      inner_values_inj "request" "agentcall/request/v1" "agentcall/request/v2" p.inner q.inner _ _
        (texts_differ "agentcall/request/v1" "agentcall/request/v2" refl) h in
    (
      same,
      text_or_null_inj p.task q.task (ground arith),
      text_or_null_inj p.context_id q.context_id (ground arith),
      ground arith,
    )

map-text_inj : (xs ys : List String) → map text xs ≡ map text ys → xs ≡ ys
map-text_inj [] [] h = refl
map-text_inj [] (y ∷ ys) h = absurd (ground arith)
map-text_inj (x ∷ xs) [] h = absurd (ground arith)
map-text_inj (x ∷ xs) (y ∷ ys) h = ground (arith, map-text_inj xs ys)

outcome_values_inj :
    (a b : Outcome) → outcome_values a ≡ outcome_values b → signed_offer a ≡ signed_offer b
unfolding outcome_values
outcome_values_inj (reply w c t) (reply w' c' t') h =
    ground (arith, text_or_null_inj c c', text_or_null_inj t t')
outcome_values_inj (reply w c t) (failure code detail offered) h =
    absurd (ground (arith, texts_differ "reply" "failure" refl))
outcome_values_inj (failure code detail offered) (reply w c t) h =
    absurd (ground (arith, texts_differ "failure" "reply" refl))
outcome_values_inj (failure c d o) (failure c' d' o') h =
    ground (arith, text_or_null_inj d d', map-text_inj (get_or o []) (get_or o' []))

-- The mark at the end comes off where both payloads have it.
outcome_of_marked :
    (p q : Inner) (a b : Outcome)
    → signed_mode p.delivery_mode ≡ signed_mode q.delivery_mode
    → outcome_values a ++ durable_mark p ≡ outcome_values b ++ durable_mark q
    → outcome_values a ≡ outcome_values b
outcome_of_marked p q a b m h =
    let mark : durable_mark p ≡ durable_mark q = ground arith in
    append_cancel_right (outcome_values a) (outcome_values b) (durable_mark p)
      (h ∙ ap (λ t. outcome_values b ++ t) (sym mark))

response_values_inj :
    (p q : ResponsePayload) → response_values p ≡ response_values q → SameResponse p q
unfolding response_values
response_values_inj p q h =
    let (same, rest) =
      inner_values_inj "response" "agentcall/response/v1" "agentcall/response/v2" p.inner q.inner _
        _ (texts_differ "agentcall/response/v1" "agentcall/response/v2" refl) h in
    (
      same,
      ground arith,
      outcome_values_inj p.outcome q.outcome
          (outcome_of_marked p.inner q.inner p.outcome q.outcome same.0 (ground arith)),
    )

values_apart : (p : RequestPayload) (q : ResponsePayload) → request_values p ≢ response_values q
unfolding request_values response_values
values_apart p q h = absurd (ground (arith, texts_differ "request" "response" refl))

module _ (formats : RequestPayload → Bool) where
  values_of_request :
      (p : RequestPayload) {b : List ℕ}
      → request_transcript formats p ≡ some b
      → canonical_encode (request_values p) ≡ some b
  unfolding request_transcript
  values_of_request p h = ground arith

  -- Two requests that have the same transcript agree on all that a request says but for two things:
  -- the message id where the request is not durable, and whether the mode `sync` is written out.
  -- No text has 2 ^ 32 bytes, nor lone surrogates.
  pub request_transcript_inj :
      (p q : RequestPayload) {b : List ℕ}
      → All Fits (request_values p)
      → All Fits (request_values q)
      → request_transcript formats p ≡ some b
      → request_transcript formats q ≡ some b
      → SameRequest p q
  request_transcript_inj p q fp fq hp hq = request_values_inj p q (
      canonical_encode_inj (request_values p) (request_values q) fp fq (values_of_request p hp)
        (values_of_request q hq))

module _ (formats : ResponsePayload → Bool) where
  values_of_response :
      (p : ResponsePayload) {b : List ℕ}
      → response_transcript formats p ≡ some b
      → canonical_encode (response_values p) ≡ some b
  unfolding response_transcript
  values_of_response p h = ground arith

  -- Two responses that have the same transcript agree on the outcome, the hash of the request and all
  -- else that a response says, but for three things: the message id where the response is not
  -- durable, whether the mode `sync` is written out, and whether an empty list of offered tasks is.
  -- No text has 2 ^ 32 bytes, nor lone surrogates.
  pub response_transcript_inj :
      (p q : ResponsePayload) {b : List ℕ}
      → All Fits (response_values p)
      → All Fits (response_values q)
      → response_transcript formats p ≡ some b
      → response_transcript formats q ≡ some b
      → SameResponse p q
  response_transcript_inj p q fp fq hp hq = response_values_inj p q (
      canonical_encode_inj (response_values p) (response_values q) fp fq (values_of_response p hp)
        (values_of_response q hq))

-- A signature over a request never serves for a response: no request has the transcript of a
-- response.
pub transcripts_apart :
    (formats : RequestPayload → Bool) (formats' : ResponsePayload → Bool) (p : RequestPayload)
    (q : ResponsePayload) {b : List ℕ}
    → All Fits (request_values p)
    → All Fits (response_values q)
    → request_transcript formats p ≡ some b
    → response_transcript formats' q ≢ some b
transcripts_apart formats formats' p q fp fq hp hq = values_apart p q (
    canonical_encode_inj (request_values p) (response_values q) fp fq
      (values_of_request formats p hp) (values_of_response formats' q hq))
