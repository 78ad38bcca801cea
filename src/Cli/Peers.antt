-- ===== src/Cli/Peers.antt =====
-- packages/cli/src/known-peers.ts: the pinned identity keys of the peers.
pub mod Pins
pub mod Inspection
use agentcall.Base.{
  ℕ, ◌+◌, Bool, true, false, not, ◌&&◌, ◌||◌, Option, none, some, String, List, [], ◌∷◌, ◌++◌, ◌==◌,
  if◌then◌else◌, leb, ltb, length, keep, find, map, max, string_eq,
}

abbrev pub max_known_peers : ℕ
max_known_peers = 10_000

pub record KnownPeer : Type 0 where
  pub relay_origin : String
  pub address : String
  pub identity_pub : String
  pub fingerprint : String
  pub first_seen_at : ℕ
  pub highest_encryption_epoch : ℕ
  pub call_count : ℕ

pub record IdentityRecord : Type 0 where
  pub relay_origin : String
  pub address : String
  pub identity_pub : String

pub record EncryptionKeyRecord : Type 0 where
  pub address : String
  pub epoch : ℕ
  pub not_before : ℕ
  pub not_after : ℕ
  pub key : String

pub record Bundle : Type 0 where
  pub identity : IdentityRecord
  pub encryption : EncryptionKeyRecord
  pub signature : String

pub data PeerError : Type 0 where
  wrong_address mixed_addresses not_valid_now corrupt_store identity_changed : PeerError
  bad_signature rollback store_full no_pin : PeerError

pub data Verification : Type 0 where
  verified : KnownPeer → Verification
  rejected : PeerError → Verification

abbrev pub is_at : String → KnownPeer → Bool
is_at address peer = peer.address == address

abbrev pub stored_identity : KnownPeer → IdentityRecord
stored_identity p = record {
  relay_origin = p.relay_origin;
  address = p.address;
  identity_pub = p.identity_pub;
}

abbrev pub outside : ℕ → EncryptionKeyRecord → Bool
outside now r = ltb now r.not_before || leb r.not_after now

abbrev pub seen_again : KnownPeer → Bundle → KnownPeer
seen_again p b = record p {
  highest_encryption_epoch = max p.highest_encryption_epoch b.encryption.epoch;
  call_count = p.call_count + 1;
}

abbrev pub replace_at : String → KnownPeer → List KnownPeer → List KnownPeer
replace_at address n peers = map (λ p. if is_at address p then n else p) peers

-- The digest of an identity's transcript and the check of an encryption key's signature under an
-- identity key belong to the cryptography.
module _ (fingerprint : IdentityRecord → String)
    (signed_by : String → EncryptionKeyRecord → String → Bool) where
  unfoldable pub new_peer : ℕ → Bundle → KnownPeer
  new_peer now b = record {
    relay_origin = b.identity.relay_origin;
    address = b.identity.address;
    identity_pub = b.identity.identity_pub;
    fingerprint = fingerprint b.identity;
    first_seen_at = now;
    highest_encryption_epoch = b.encryption.epoch;
    call_count = 1;
  }

  unfoldable pub verify_known : KnownPeer → Bundle → List KnownPeer → List KnownPeer × Verification
  verify_known p b peers =
      if not (p.fingerprint == fingerprint (stored_identity p))
      then (peers, rejected corrupt_store)
      else if not (p.identity_pub == b.identity.identity_pub)
      then (peers, rejected identity_changed)
      else if not (signed_by p.identity_pub b.encryption b.signature)
      then (peers, rejected bad_signature)
      else if ltb b.encryption.epoch p.highest_encryption_epoch
      then (peers, rejected rollback)
      else (replace_at b.identity.address (seen_again p b) peers, verified (seen_again p b))

  unfoldable pub verify_new : ℕ → Bundle → List KnownPeer → List KnownPeer × Verification
  unfolding new_peer
  verify_new now b peers =
      if not (signed_by b.identity.identity_pub b.encryption b.signature)
      then (peers, rejected bad_signature)
      else if leb max_known_peers (length peers)
      then (peers, rejected store_full)
      else (peers ++ (new_peer now b ∷ []), verified (new_peer now b))

  unfoldable pub verify_and_pin_peer :
      String → Bundle → ℕ → List KnownPeer → List KnownPeer × Verification
  verify_and_pin_peer expected b now peers =
      if not (b.identity.address == expected)
      then (peers, rejected wrong_address)
      else if not (b.encryption.address == b.identity.address)
      then (peers, rejected mixed_addresses)
      else if outside now b.encryption
      then (peers, rejected not_valid_now)
      else elim (find (is_at b.identity.address) peers) [
        | none ↦ verify_new now b peers
        | some p ↦ verify_known p b peers
      ]

-- What an inspection finds; an invalid one tells the digests that were known by then.
pub data PeerIdentityInspection : Type 0 where
  unseen : String → PeerIdentityInspection
  matched changed : String → String → PeerIdentityInspection
  invalid : PeerError → Option String → Option String → PeerIdentityInspection

abbrev pub pinned_fingerprint : Option KnownPeer → Option String
pinned_fingerprint none = none
pinned_fingerprint (some p) = some p.fingerprint

module _ (fingerprint : IdentityRecord → String)
    (signed_by : String → EncryptionKeyRecord → String → Bool) where
  unfoldable pub inspect_known : KnownPeer → Bundle → PeerIdentityInspection
  inspect_known p b =
      let served = fingerprint b.identity in
      if not (fingerprint (stored_identity p) == p.fingerprint)
      then invalid corrupt_store (some p.fingerprint) (some served)
      else if not (p.identity_pub == b.identity.identity_pub)
      then changed p.fingerprint served
      else if ltb b.encryption.epoch p.highest_encryption_epoch
      then invalid rollback (some p.fingerprint) (some served)
      else matched p.fingerprint served

  -- Nothing is written. A digest is never empty.
  unfoldable pub inspect_peer_identity :
      String → Bundle → ℕ → List KnownPeer → PeerIdentityInspection
  inspect_peer_identity expected b now peers =
      let existing = find (is_at expected) peers in
      let served = fingerprint b.identity in
      if not (b.identity.address == expected) || not (b.encryption.address == expected)
      then invalid wrong_address (pinned_fingerprint existing) none
      else if outside now b.encryption
      then invalid not_valid_now (pinned_fingerprint existing) (some served)
      else if not (signed_by b.identity.identity_pub b.encryption b.signature)
      then invalid bad_signature (pinned_fingerprint existing) (some served)
      else elim existing [ none ↦ unseen served | some p ↦ inspect_known p b ]

unfoldable pub reset_peer_trust : String → List KnownPeer → List KnownPeer × Verification
reset_peer_trust address peers = elim (find (is_at address) peers) [
  | none ↦ (peers, rejected no_pin)
  | some p ↦ (keep (λ q. not (is_at address q)) peers, verified p)
]
