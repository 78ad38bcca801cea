-- ===== src/Cli/Sealing/RoundTrip.antt =====
-- packages/cli/src/e2ee.ts: what one installation seals, the other opens.
use agentcall.Base.{true, ◌==◌, string_eq, nat_eq, ◌≡◌}
use agentcall.Shared.Envelope.{Inner}
use agentcall.Cli.Sealing.{ExpectedEnvelope, RecipientEncryptionKey}

abbrev pub route_to : Inner → ExpectedEnvelope
route_to p = record {
  relay_origin = p.relay_origin;
  from = p.from;
  to = p.to;
  key_id = p.recipient_encryption_key_id;
  epoch = p.recipient_epoch;
}

-- The key and epoch of the recipient are the payload's.
abbrev Addressed : Inner → RecipientEncryptionKey → Type 0
Addressed p recipient =
    (p.recipient_encryption_key_id == recipient.key_id ≡ true)
    × (p.recipient_epoch == recipient.epoch ≡ true)
