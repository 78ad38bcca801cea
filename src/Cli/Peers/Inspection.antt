-- ===== src/Cli/Peers/Inspection.antt =====
-- An inspection against the verification that it foretells.
use agentcall.Base.{
  ℕ, ◌≡◌, Bool, true, false, not, Option, none, some, String, List, ◌==◌, ltb, find, string_eq,
  arith, eq_iff, refl, sym, ap, ◌∙◌, inl, inr, Bool-cases, Option-cases,
}
use agentcall.Cli.Peers.{
  KnownPeer, IdentityRecord, EncryptionKeyRecord, Bundle, verified, is_at, stored_identity, outside,
  verify_known, verify_new, verify_and_pin_peer, inspect_known, inspect_peer_identity,
  PeerIdentityInspection, unseen, matched,
}

module _ (fingerprint : IdentityRecord → String)
    (signed_by : String → EncryptionKeyRecord → String → Bool) where
  -- What an inspection says of a bundle that a verification accepts.
  abbrev pub agreed : Bundle → Option KnownPeer → PeerIdentityInspection
  agreed b none = unseen (fingerprint b.identity)
  agreed b (some p) = matched p.fingerprint (fingerprint b.identity)

  new_signed :
      (now : ℕ) (b : Bundle) (peers : List KnownPeer) (p : KnownPeer)
      → (verify_new fingerprint signed_by now b peers).1 ≡ verified p
      → signed_by b.identity.identity_pub b.encryption b.signature ≡ true
  unfolding verify_new
  new_signed now b peers p =
      elim (Bool-cases (signed_by b.identity.identity_pub b.encryption b.signature)) [
        | inl h ↦ λ e. h
        | inr h ↦ rw (h, verify_new) (λ e. ground (arith, e))
      ]

  known_agreed :
      (q p : KnownPeer) (b : Bundle) (peers : List KnownPeer)
      → (verify_known fingerprint signed_by q b peers).1 ≡ verified p
      → (inspect_known fingerprint signed_by q b ≡ matched q.fingerprint (fingerprint b.identity))
        × (signed_by b.identity.identity_pub b.encryption b.signature ≡ true)
  unfolding verify_known inspect_known
  known_agreed q p b peers = elim (Bool-cases (q.fingerprint == fingerprint (stored_identity q))) [
    | inr h ↦ rw (h, verify_known) (λ e. ground (arith, e))
    | inl h ↦ elim (Bool-cases (q.identity_pub == b.identity.identity_pub)) [
      | inr i ↦ rw (h, i, verify_known) (λ e. ground (arith, e))
      | inl i ↦ elim (Bool-cases (signed_by q.identity_pub b.encryption b.signature)) [
        | inr j ↦ rw (h, i, j, verify_known) (λ e. ground (arith, e))
        | inl j ↦ elim (Bool-cases (ltb b.encryption.epoch q.highest_encryption_epoch)) [
          | inl l ↦ rw (h, i, j, l, verify_known) (λ e. ground (arith, e))
          | inr l ↦ λ e.
              let same : q.identity_pub ≡ b.identity.identity_pub =
                (eq_iff q.identity_pub b.identity.identity_pub).0 i in
              let h' : (fingerprint (stored_identity q) == q.fingerprint) ≡ true = ground (
                arith,
                eq_iff q.fingerprint (fingerprint (stored_identity q)),
                eq_iff (fingerprint (stored_identity q)) q.fingerprint,
              ) in
              (
                rw (h', i, l, inspect_known) refl,
                sym (ap (λ k. signed_by k b.encryption b.signature) same) ∙ j,
              )
        ]
      ]
    ]
  ]

  -- A bundle that a verification accepts is one that an inspection at that time calls unseen, where
  -- the address has no pin, and matched, where it has one.
  pub verify_and_pin_peer-inspect_peer_identity :
      (a : String) (b : Bundle) (now : ℕ) (peers : List KnownPeer) (p : KnownPeer)
      → (verify_and_pin_peer fingerprint signed_by a b now peers).1 ≡ verified p
      → inspect_peer_identity fingerprint signed_by a b now peers ≡ agreed b (find (is_at a) peers)
  unfolding verify_and_pin_peer inspect_peer_identity
  verify_and_pin_peer-inspect_peer_identity a b now peers p =
      elim (Bool-cases (not (b.identity.address == a))) [
        | inl h ↦ rw (h, verify_and_pin_peer) (λ e. ground (arith, e))
        | inr h ↦ elim (Bool-cases (not (b.encryption.address == b.identity.address))) [
          | inl i ↦ rw (h, i, verify_and_pin_peer) (λ e. ground (arith, e))
          | inr i ↦ elim (Bool-cases (outside now b.encryption)) [
            | inl j ↦ rw (h, i, j, verify_and_pin_peer) (λ e. ground (arith, e))
            | inr j ↦
                let same : b.identity.address ≡ a = ground (arith, eq_iff b.identity.address a) in
                let g : not (b.encryption.address == a) ≡ false = ground (
                  arith,
                  eq_iff b.identity.address a,
                  eq_iff b.encryption.address b.identity.address,
                  eq_iff b.encryption.address a,
                ) in
                elim (Option-cases (find (is_at a) peers)) [
                  | inl f ↦
                      let f' = ap (λ x. find (is_at x) peers) same ∙ f in
                      rw (h, i, j, f', verify_and_pin_peer)
                        (λ e. rw (g, new_signed now b peers p e, f, inspect_peer_identity) refl)
                  | inr (q, f) ↦
                      let f' = ap (λ x. find (is_at x) peers) same ∙ f in
                      rw (h, i, j, f', verify_and_pin_peer)
                        (λ e.
                          let k = known_agreed q p b peers e in
                          rw (g, k.1, f, inspect_peer_identity) k.0)
                ]
          ]
        ]
      ]
