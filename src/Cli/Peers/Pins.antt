-- ===== src/Cli/Peers/Pins.antt =====
-- A pinned key stays pinned.
use agentcall.Base.{
  ℕ, ◌≤◌, ◌≡◌, Bool, true, false, not, some, String, List, [], ◌∷◌, ◌++◌, ◌==◌, leb, ltb, length,
  find, string_eq, arith, eq_iff, refl, sym, ap, ◌∙◌, inl, inr, Bool-cases, Option-cases, subst,
  get_or,
}
use agentcall.Cli.Peers.{
  KnownPeer, IdentityRecord, EncryptionKeyRecord, Bundle, verified, is_at, stored_identity, outside,
  seen_again, replace_at, verify_known, verify_new, verify_and_pin_peer, max_known_peers,
}

-- The second entry is the first pin, later.
pub record Keeps (p q : KnownPeer) : Type 0 where
  pub key : q.identity_pub ≡ p.identity_pub
  pub origin : q.relay_origin ≡ p.relay_origin
  pub digest : q.fingerprint ≡ p.fingerprint
  pub epoch : p.highest_encryption_epoch ≤ q.highest_encryption_epoch

Keeps-refl : (p : KnownPeer) → Keeps p p
Keeps-refl p = record { key = refl; origin = refl; digest = refl; epoch = omega arith }

Keeps-trans : {p q r : KnownPeer} → Keeps p q → Keeps q r → Keeps p r
Keeps-trans k l = record {
  key = l.key ∙ k.key;
  origin = l.origin ∙ k.origin;
  digest = l.digest ∙ k.digest;
  epoch = omega (arith, k.epoch, l.epoch);
}

-- The address has a pin, and it is the given one or a later state of it.
pub record Pinned (address : String) (p : KnownPeer) (peers : List KnownPeer) : Type 0 where
  pub entry : KnownPeer
  pub found : find (is_at address) peers ≡ some entry
  pub keeps : Keeps p entry

find_append :
    (a : String) (p : KnownPeer) (xs ys : List KnownPeer)
    → find (is_at a) xs ≡ some p
    → find (is_at a) (xs ++ ys) ≡ some p
find_append a p [] ys e = ground (arith, e)
find_append a p (x ∷ xs) ys e = ground (arith, find_append a p xs ys)

find_at :
    (a : String) (p : KnownPeer) (xs : List KnownPeer)
    → find (is_at a) xs ≡ some p
    → is_at a p ≡ true
find_at a p [] e = ground (arith, e)
find_at a p (x ∷ xs) e = ground (arith, find_at a p xs)

find_other :
    (a b : String) (n : KnownPeer) (xs : List KnownPeer)
    → is_at b n ≡ true
    → (b == a) ≡ false
    → find (is_at a) (replace_at b n xs) ≡ find (is_at a) xs
find_other a b n [] k d = refl
find_other a b n (x ∷ xs) k d = ground (
  arith,
  eq_iff b a,
  eq_iff x.address b,
  eq_iff x.address a,
  eq_iff n.address b,
  eq_iff n.address a,
  find_other a b n xs,
)

find_same :
    (b : String) (p n : KnownPeer) (xs : List KnownPeer)
    → find (is_at b) xs ≡ some p
    → is_at b n ≡ true
    → find (is_at b) (replace_at b n xs) ≡ some n
find_same b p n [] e k = ground (arith, e)
find_same b p n (x ∷ xs) e k = ground (arith, find_same b p n xs)

seen_again-Keeps : (p : KnownPeer) (b : Bundle) → Keeps p (seen_again p b)
seen_again-Keeps p b = record { key = refl; origin = refl; digest = refl; epoch = omega arith }

replace_at-Pinned :
    (a : String) (p q : KnownPeer) (b : Bundle) (peers : List KnownPeer)
    → find (is_at b.identity.address) peers ≡ some q
    → Pinned a p peers
    → Pinned a p (replace_at b.identity.address (seen_again q b) peers)
replace_at-Pinned a p q b peers e k =
    let at = b.identity.address in
    let i = find_at at q peers e in
    elim (Bool-cases (at == a)) [
      | inr d ↦ record {
        entry = k.entry;
        found = find_other a at (seen_again q b) peers i d ∙ k.found;
        keeps = k.keeps;
      }
      | inl d ↦
          let same : at ≡ a = (eq_iff at a).0 d in
          let f : some q ≡ some k.entry = sym e ∙ ap (λ x. find (is_at x) peers) same ∙ k.found in
          record {
            entry = seen_again q b;
            found =
                subst
                  (λ x.
                    find (is_at x) (replace_at at (seen_again q b) peers) ≡ some (seen_again q b))
                  same (find_same at q (seen_again q b) peers e i);
            keeps =
                Keeps-trans (subst (Keeps p) (ap (λ o. get_or o k.entry) (sym f)) k.keeps)
                  (seen_again-Keeps q b);
          }
    ]

module _ (fingerprint : IdentityRecord → String)
    (signed_by : String → EncryptionKeyRecord → String → Bool) where
  -- What a verification accepts, of a peer that is pinned.
  pub record IsAccepted (p : KnownPeer) (b : Bundle) : Type 0 where
    pub same_key : b.identity.identity_pub ≡ p.identity_pub
    pub intact : p.fingerprint ≡ fingerprint (stored_identity p)
    pub signed : signed_by p.identity_pub b.encryption b.signature ≡ true
    pub no_rollback : p.highest_encryption_epoch ≤ b.encryption.epoch

  verify_known_lem :
      (a : String) (p q : KnownPeer) (b : Bundle) (peers : List KnownPeer)
      → find (is_at b.identity.address) peers ≡ some q
      → Pinned a p peers
      → Pinned a p (verify_known fingerprint signed_by q b peers).0
  unfolding verify_known
  verify_known_lem a p q b peers e k =
      elim (Bool-cases (not (q.fingerprint == fingerprint (stored_identity q)))) [
        | inl h ↦ rw (h, verify_known) k
        | inr h ↦ elim (Bool-cases (not (q.identity_pub == b.identity.identity_pub))) [
          | inl i ↦ rw (h, i, verify_known) k
          | inr i ↦ elim (Bool-cases (not (signed_by q.identity_pub b.encryption b.signature))) [
            | inl j ↦ rw (h, i, j, verify_known) k
            | inr j ↦ elim (Bool-cases (ltb b.encryption.epoch q.highest_encryption_epoch)) [
              | inl l ↦ rw (h, i, j, l, verify_known) k
              | inr l ↦ rw (h, i, j, l, verify_known) (replace_at-Pinned a p q b peers e k)
            ]
          ]
        ]
      ]

  verify_new-Pinned :
      (a : String) (p : KnownPeer) (now : ℕ) (b : Bundle) (peers : List KnownPeer)
      → Pinned a p peers
      → Pinned a p (verify_new fingerprint signed_by now b peers).0
  unfolding verify_new
  verify_new-Pinned a p now b peers k =
      elim (Bool-cases (not (signed_by b.identity.identity_pub b.encryption b.signature))) [
        | inl h ↦ rw (h, verify_new) k
        | inr h ↦ elim (Bool-cases (leb max_known_peers (length peers))) [
          | inl i ↦ rw (h, i, verify_new) k
          | inr i ↦
              rw (h, i, verify_new)
                (record {
                  entry = k.entry;
                  found = find_append a k.entry peers _ k.found;
                  keeps = k.keeps;
                })
        ]
      ]

  verify_and_pin_peer-Pinned :
      (a : String) (p : KnownPeer) (expected : String) (b : Bundle) (now : ℕ)
      (peers : List KnownPeer)
      → Pinned a p peers
      → Pinned a p (verify_and_pin_peer fingerprint signed_by expected b now peers).0
  unfolding verify_and_pin_peer
  verify_and_pin_peer-Pinned a p expected b now peers k =
      elim (Bool-cases (not (b.identity.address == expected))) [
        | inl h ↦ rw (h, verify_and_pin_peer) k
        | inr h ↦ elim (Bool-cases (not (b.encryption.address == b.identity.address))) [
          | inl i ↦ rw (h, i, verify_and_pin_peer) k
          | inr i ↦ elim (Bool-cases (outside now b.encryption)) [
            | inl j ↦ rw (h, i, j, verify_and_pin_peer) k
            | inr j ↦ elim (Option-cases (find (is_at b.identity.address) peers)) [
              | inl e ↦ rw (h, i, j, e, verify_and_pin_peer) (verify_new-Pinned a p now b peers k)
              | inr (q, e) ↦
                  rw (h, i, j, e, verify_and_pin_peer) (verify_known_lem a p q b peers e k)
            ]
          ]
        ]
      ]

  unfoldable pub run : List (String × Bundle × ℕ) → List KnownPeer → List KnownPeer
  run [] peers = peers
  run ((expected, b, now) ∷ vs) peers =
      run vs (verify_and_pin_peer fingerprint signed_by expected b now peers).0

  run-Pinned :
      (a : String) (p : KnownPeer) (vs : List (String × Bundle × ℕ)) (peers : List KnownPeer)
      → Pinned a p peers
      → Pinned a p (run vs peers)
  unfolding run
  run-Pinned a p [] peers k = k
  run-Pinned a p ((expected, b, now) ∷ vs) peers k =
      run-Pinned a p vs _ (verify_and_pin_peer-Pinned a p expected b now peers k)

  known-IsAccepted :
      (p q : KnownPeer) (b : Bundle) (peers : List KnownPeer)
      → (verify_known fingerprint signed_by q b peers).1 ≡ verified p
      → IsAccepted q b
  unfolding verify_known
  known-IsAccepted p q b peers =
      elim (Bool-cases (not (q.fingerprint == fingerprint (stored_identity q)))) [
        | inl h ↦ rw (h, verify_known) (λ e. ground (arith, e))
        | inr h ↦ elim (Bool-cases (not (q.identity_pub == b.identity.identity_pub))) [
          | inl i ↦ rw (h, i, verify_known) (λ e. ground (arith, e))
          | inr i ↦ elim (Bool-cases (not (signed_by q.identity_pub b.encryption b.signature))) [
            | inl j ↦ rw (h, i, j, verify_known) (λ e. ground (arith, e))
            | inr j ↦ elim (Bool-cases (ltb b.encryption.epoch q.highest_encryption_epoch)) [
              | inl l ↦ rw (h, i, j, l, verify_known) (λ e. ground (arith, e))
              | inr l ↦ λ e. record {
                same_key = ground (arith, eq_iff q.identity_pub b.identity.identity_pub);
                intact = ground (arith, eq_iff q.fingerprint (fingerprint (stored_identity q)));
                signed = ground arith;
                no_rollback = ground arith;
              }
            ]
          ]
        ]
      ]

  pinned-IsAccepted :
      (a : String) (p q : KnownPeer) (b : Bundle) (now : ℕ) (peers : List KnownPeer)
      → find (is_at a) peers ≡ some q
      → (verify_and_pin_peer fingerprint signed_by a b now peers).1 ≡ verified p
      → IsAccepted q b
  unfolding verify_and_pin_peer
  pinned-IsAccepted a p q b now peers f = elim (Bool-cases (not (b.identity.address == a))) [
    | inl h ↦ rw (h, verify_and_pin_peer) (λ e. ground (arith, e))
    | inr h ↦ elim (Bool-cases (not (b.encryption.address == b.identity.address))) [
      | inl i ↦ rw (h, i, verify_and_pin_peer) (λ e. ground (arith, e))
      | inr i ↦ elim (Bool-cases (outside now b.encryption)) [
        | inl j ↦ rw (h, i, j, verify_and_pin_peer) (λ e. ground (arith, e))
        | inr j ↦
            let same : b.identity.address ≡ a = ground (arith, eq_iff b.identity.address a) in
            let g = ap (λ x. find (is_at x) peers) same ∙ f in
            rw (h, i, j, g, verify_and_pin_peer) (known-IsAccepted p q b peers)
      ]
    ]
  ]

  -- Once a peer is pinned, no sequence of verifications, of whatever the relay serves, replaces its
  -- key: what is then accepted for its address has the pinned key, is signed by it, and has an
  -- epoch not below the one that was pinned.
  pub run-verify_and_pin_peer :
      (a : String) (p q : KnownPeer) (vs : List (String × Bundle × ℕ)) (b : Bundle) (now : ℕ)
      (peers : List KnownPeer)
      → find (is_at a) peers ≡ some p
      → (verify_and_pin_peer fingerprint signed_by a b now (run vs peers)).1 ≡ verified q
      → (b.identity.identity_pub ≡ p.identity_pub)
        × (signed_by p.identity_pub b.encryption b.signature ≡ true)
        × (p.highest_encryption_epoch ≤ b.encryption.epoch)
  run-verify_and_pin_peer a p q vs b now peers f e =
      let k = run-Pinned a p vs peers (record { entry = p; found = f; keeps = Keeps-refl p }) in
      let i = pinned-IsAccepted a q k.entry b now (run vs peers) k.found e in
      (
        i.same_key ∙ k.keeps.key,
        subst (λ x. signed_by x b.encryption b.signature ≡ true) k.keeps.key i.signed,
        omega (arith, k.keeps.epoch, i.no_rollback),
      )
