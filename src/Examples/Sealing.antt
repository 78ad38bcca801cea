-- ===== src/Examples/Sealing.antt =====
-- Concrete transcripts and envelopes, under a cryptography of texts: a key opens what was sealed for
-- it, and a signature is the key that made it.
use agentcall.Base.{
  ℕ, Bool, true, none, some, String, List, [], ◌∷◌, ◌≡◌, refl, if◌then◌else◌, ◌==◌, string_eq,
  nat_eq, All, arith, get_or,
}
use agentcall.Shared.Utf8.{utf8}
use agentcall.Shared.Canonical.{
  CanonicalValue, text, number, null, pos, big_endian, canonical_encode, encode_value,
}
use agentcall.Shared.Canonical.Injective.{Fits, canonical_encode_inj}
use agentcall.Shared.Envelope.{
  Inner, RequestPayload, ResponsePayload, reply, durable, header_values, hpke_envelope_aad,
  outcome_values, request, response, request_transcript, request_values, response_transcript,
  response_values, validity_holds,
}
use agentcall.Shared.Envelope.Transcripts.{
  SameRequest, SameResponse, request_transcript_inj, response_transcript_inj,
}
use agentcall.Cli.Sealing.{
  Crypto, ExpectedResponseBinding, HpkeEnvelope, Kind, OpenError, RecipientEncryptionKey, Result,
  SealIdentity, check_signed, current_error, header_matches, hpke_opened, ok, threw, SealError,
  open_e2ee_response, open_signed, route_error, seal_signed,
}
use agentcall.Cli.Sealing.Opening.{IsGenuine, open_e2ee_response-IsGenuine}
use agentcall.Cli.Sealing.RoundTrip.{route_to}
use agentcall.Examples.Pairs.{print_pair, parse_pair}

abbrev values : List CanonicalValue
values = text "aé" ∷ number (pos 258) ∷ null ∷ []

values_encode :
    canonical_encode values
    ≡ some (1 ∷ 0 ∷ 0 ∷ 0 ∷ 3 ∷ 97 ∷ 195 ∷ 169 ∷ 2 ∷ 0 ∷ 0 ∷ 0 ∷ 0 ∷ 0 ∷ 0 ∷ 1 ∷ 2 ∷ 3 ∷ [])
unfolding canonical_encode encode_value big_endian utf8
values_encode = refl

values_fit : All Fits values
unfolding utf8
values_fit = omega arith

canonical_encode_inj_example : values ≡ values
canonical_encode_inj_example =
    canonical_encode_inj values values values_fit values_fit values_encode values_encode

abbrev pub ask : Inner
ask = record {
  relay_origin = "relay";
  from = "@o/ann";
  to = "@o/bob";
  message_id = some "m1";
  delivery_mode = some durable;
  request_id = "r1";
  sender_identity_key_id = "ann";
  recipient_encryption_key_id = "bob";
  recipient_epoch = 1;
  issued_at = 1000;
  expires_at = 2000;
}

abbrev pub asked : RequestPayload
asked = record { inner = ask; task = none; context_id = none; message = "hi" }

abbrev answered : ResponsePayload
answered = record {
  inner = record ask {
    from = "@o/bob";
    to = "@o/ann";
    sender_identity_key_id = "bob";
    recipient_encryption_key_id = "ann";
  };
  request_transcript_hash = "h1";
  outcome = reply "yes" none none;
}

asked-Fits : All Fits (request_values asked)
unfolding request_values utf8
asked-Fits = omega arith

answered-Fits : All Fits (response_values answered)
unfolding response_values outcome_values utf8
answered-Fits = omega arith

abbrev pub any_request : RequestPayload → Bool
any_request p = true

abbrev any_response : ResponsePayload → Bool
any_response p = true

asked_bytes : List ℕ
asked_bytes = get_or (request_transcript any_request asked) []

asked_transcript : request_transcript any_request asked ≡ some asked_bytes
unfolding asked_bytes request_transcript request_values validity_holds canonical_encode encode_value
    big_endian utf8
asked_transcript = refl

answered_bytes : List ℕ
answered_bytes = get_or (response_transcript any_response answered) []

answered_transcript : response_transcript any_response answered ≡ some answered_bytes
unfolding answered_bytes response_transcript response_values outcome_values validity_holds
    canonical_encode encode_value big_endian utf8
answered_transcript = refl

request_transcript_inj_example : SameRequest asked asked
request_transcript_inj_example =
    request_transcript_inj any_request asked asked asked-Fits asked-Fits asked_transcript
      asked_transcript

response_transcript_inj_example : SameResponse answered answered
response_transcript_inj_example =
    response_transcript_inj any_response answered answered answered-Fits answered-Fits
      answered_transcript answered_transcript

abbrev pub toy : Crypto
toy = record {
  key_id_for = λ key. key;
  hpke_seal = λ public info plaintext aad. (public, plaintext);
  hpke_open = λ pkcs8 info sealed aad. if sealed.0 == pkcs8 then some sealed.1 else none;
  sign_transcript = λ pkcs8 transcript. pkcs8;
  verify_transcript = λ public transcript signature. signature == public;
}

abbrev answer_envelope : HpkeEnvelope
answer_envelope = record {
  header = record {
    direction = response;
    relay_origin = "relay";
    from = "@o/bob";
    to = "@o/ann";
    key_id = "ann";
    epoch = 1;
  };
  enc = "ann";
  ct = "sealed";
}

abbrev sealed_of : Result SealError HpkeEnvelope → HpkeEnvelope
sealed_of (ok envelope) = envelope
sealed_of (threw error) = answer_envelope

abbrev kind : Kind String
kind = record {
  direction = request;
  info = "agentcall/v1/request";
  inner = λ message. ask;
  transcript = λ message. canonical_encode (text message ∷ []);
  print_signed = print_pair;
  parse_signed = parse_pair;
}

abbrev ann : SealIdentity
ann = record { identity_pub = "ann"; identity_pkcs8 = "ann" }

abbrev bob : RecipientEncryptionKey
bob = record { public = "bob"; key_id = "bob"; epoch = 1 }

-- What `ann` sealed for `bob`.
sealed : HpkeEnvelope
sealed = sealed_of (seal_signed toy (λ h. true) (λ e. true) kind "hi" ann bob)

abbrev answer_kind : Kind ResponsePayload
answer_kind = record {
  direction = response;
  info = "agentcall/v1/response";
  inner = λ p. p.inner;
  transcript = response_transcript any_response;
  print_signed = λ p signature. "sealed";
  parse_signed = λ plaintext. if plaintext == "sealed" then some (answered, "bob") else none;
}

abbrev expected : ExpectedResponseBinding
expected = record {
  message_id = "m1";
  request_id = "r1";
  request_transcript_hash = "h1";
  delivery_mode = some durable;
}

abbrev opened_answer : Result OpenError ResponsePayload
opened_answer =
    open_signed toy (λ h. true) (λ e. true) answer_kind (some answer_envelope) "ann" "bob"
      (route_to answered.inner) 1500

answer_opens : open_e2ee_response opened_answer expected ≡ ok answered
unfolding open_e2ee_response open_signed hpke_opened check_signed route_error header_matches
    current_error response_transcript response_values outcome_values validity_holds canonical_encode
    encode_value big_endian utf8 hpke_envelope_aad header_values
answer_opens = refl

open_e2ee_response-IsGenuine_example :
    IsGenuine toy (λ h. true) (λ e. true) answer_kind "bob" (route_to answered.inner) 1500 answered
    × (answered.inner.message_id ≡ some "m1")
    × (answered.inner.request_id ≡ "r1")
    × (answered.request_transcript_hash ≡ "h1")
    × (answered.inner.delivery_mode ≡ some durable)
open_e2ee_response-IsGenuine_example =
    open_e2ee_response-IsGenuine toy (λ h. true) (λ e. true) answer_kind answer_envelope "ann" "bob"
      (route_to answered.inner) 1500 expected answered answer_opens
