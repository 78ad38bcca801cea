-- ===== src/Cli/Replay/Memory.antt =====
-- A request is accepted at most once.
use agentcall.Base.{
  ℕ, ◌+◌, ◌≤◌, ◌≡◌, Bool, true, ◌&&◌, ◌||◌, List, [], ◌∷◌, ◌++◌, leb, ltb, length, keep, any,
  string_eq, arith, eq_iff, ◌≢◌, refl, ◌∙◌, inl, inr, Bool-cases, length-append,
}
use agentcall.Cli.Replay.{
  ReplayReservation, reserved, reserve_replay, sort, insert_sorted, is_retained, same_request,
  max_replay_reservations, max_reservation_future_ms,
}

-- The store has the request, to be kept up to the given time at least.
abbrev pub remembers : ReplayReservation → ReplayReservation → Bool
remembers r s = same_request r s && leb r.expires_at s.expires_at

any-append :
    (p : ReplayReservation → Bool) (xs ys : List ReplayReservation)
    → any p (xs ++ ys) ≡ (any p xs || any p ys)
any-append p [] ys = refl
any-append p (x ∷ xs) ys = ground (arith, any-append p xs ys)

any-keep :
    (r : ReplayReservation) (now : ℕ) (xs : List ReplayReservation)
    → is_retained now r ≡ true
    → any (remembers r) xs ≡ true
    → any (remembers r) (keep (is_retained now) xs) ≡ true
any-keep r now [] k e = e
any-keep r now (x ∷ xs) k e = ground (arith, any-keep r now xs)

any-same :
    (r : ReplayReservation) (xs : List ReplayReservation)
    → any (remembers r) xs ≡ true
    → any (same_request r) xs ≡ true
any-same r [] e = e
any-same r (x ∷ xs) e = ground (arith, any-same r xs)

remembers-itself : (r : ReplayReservation) → remembers r r ≡ true
remembers-itself r =
    ground
      (arith, eq_iff r.sender_fingerprint r.sender_fingerprint, eq_iff r.request_id r.request_id)

module _ (before : ReplayReservation → ReplayReservation → Bool) where
  any-insert_sorted :
      (p : ReplayReservation → Bool) (r : ReplayReservation) (xs : List ReplayReservation)
      → any p (insert_sorted before r xs) ≡ (p r || any p xs)
  unfolding insert_sorted
  any-insert_sorted p r [] = refl
  any-insert_sorted p r (x ∷ xs) = ground (arith, any-insert_sorted p r xs)

  any-sort :
      (p : ReplayReservation → Bool) (xs : List ReplayReservation)
      → any p (sort before xs) ≡ any p xs
  unfolding sort
  any-sort p [] = refl
  any-sort p (x ∷ xs) = ground (arith, any-insert_sorted p x (sort before xs), any-sort p xs)

  length-insert_sorted :
      (r : ReplayReservation) (xs : List ReplayReservation)
      → length (insert_sorted before r xs) ≡ length xs + 1
  unfolding insert_sorted
  length-insert_sorted r [] = refl
  length-insert_sorted r (x ∷ xs) = ground (arith, length-insert_sorted r xs)

  length-sort : (xs : List ReplayReservation) → length (sort before xs) ≡ length xs
  unfolding sort
  length-sort [] = refl
  length-sort (x ∷ xs) = omega (arith, length-insert_sorted x (sort before xs), length-sort xs)

  unfoldable pub run :
      List (ReplayReservation × ℕ) → List ReplayReservation → List ReplayReservation
  run [] store = store
  run ((r, now) ∷ rs) store = run rs (reserve_replay before r now store).0

  -- All of them come before the given reservation is over.
  unfoldable pub AllWithin : ReplayReservation → List (ReplayReservation × ℕ) → Type 0
  AllWithin r [] = Unit
  AllWithin r ((_, now) ∷ rs) = (is_retained now r ≡ true) × AllWithin r rs

  reserve_replay-remembers :
      (r s : ReplayReservation) (now : ℕ) (store : List ReplayReservation)
      → is_retained now r ≡ true
      → any (remembers r) store ≡ true
      → any (remembers r) (reserve_replay before s now store).0 ≡ true
  unfolding reserve_replay
  reserve_replay-remembers r s now store k e =
      let live = keep (is_retained now) store in
      elim (Bool-cases
        (leb s.expires_at now || ltb (now + max_reservation_future_ms) s.expires_at)) [
          | inl h ↦ rw (h, reserve_replay) e
          | inr h ↦ elim (Bool-cases (any (same_request s) live)) [
            | inl g ↦ rw (h, g, reserve_replay) e
            | inr g ↦ elim (Bool-cases (leb max_replay_reservations (length live))) [
              | inl f ↦ rw (h, g, f, reserve_replay) e
              | inr f ↦
                  rw (h, g, f, reserve_replay)
                    (any-sort (remembers r) (live ++ (s ∷ []))
                      ∙ any-append (remembers r) live (s ∷ [])
                      ∙ rw (any-keep r now store k e) refl)
            ]
          ]
        ]

  run-remembers :
      (r : ReplayReservation) (rs : List (ReplayReservation × ℕ)) (store : List ReplayReservation)
      → AllWithin r rs
      → any (remembers r) store ≡ true
      → any (remembers r) (run rs store) ≡ true
  unfolding run AllWithin
  run-remembers r [] store k e = e
  run-remembers r ((s, now) ∷ rs) store (k, ks) e =
      run-remembers r rs _ ks (reserve_replay-remembers r s now store k e)

  accepted-remembers :
      (r : ReplayReservation) (now : ℕ) (store : List ReplayReservation)
      → (reserve_replay before r now store).1 ≡ reserved
      → any (remembers r) (reserve_replay before r now store).0 ≡ true
  unfolding reserve_replay
  accepted-remembers r now store =
      let live = keep (is_retained now) store in
      elim (Bool-cases
        (leb r.expires_at now || ltb (now + max_reservation_future_ms) r.expires_at)) [
          | inl h ↦ rw (h, reserve_replay) (λ e. ground (arith, e))
          | inr h ↦ elim (Bool-cases (any (same_request r) live)) [
            | inl g ↦ rw (h, g, reserve_replay) (λ e. ground (arith, e))
            | inr g ↦ elim (Bool-cases (leb max_replay_reservations (length live))) [
              | inl f ↦ rw (h, g, f, reserve_replay) (λ e. ground (arith, e))
              | inr f ↦
                  rw (h, g, f, reserve_replay)
                    (λ e.
                      any-sort (remembers r) (live ++ (r ∷ []))
                      ∙ any-append (remembers r) live (r ∷ [])
                      ∙ ground (arith, remembers-itself r))
            ]
          ]
        ]

  remembered-refused :
      (r again : ReplayReservation) (later : ℕ) (store : List ReplayReservation)
      → again.sender_fingerprint ≡ r.sender_fingerprint
      → again.request_id ≡ r.request_id
      → is_retained later r ≡ true
      → any (remembers r) store ≡ true
      → (reserve_replay before again later store).1 ≢ reserved
  unfolding reserve_replay
  remembered-refused r again later store f i k e =
      let live = keep (is_retained later) store in
      let same : any (same_request again) live ≡ true =
        rw (f, i) (any-same r live (any-keep r later store k e)) in
      elim (Bool-cases
        (leb again.expires_at later || ltb (later + max_reservation_future_ms) again.expires_at)) [
          | inl h ↦ rw (h, reserve_replay) (λ n. ground (arith, n))
          | inr h ↦ rw (h, same, reserve_replay) (λ n. ground (arith, n))
        ]

  -- A request that was accepted is refused whenever it comes again before its reservation is over,
  -- whatever requests were reserved in between and whatever expiry the copy claims.
  pub reserve_replay-reserve_replay :
      (r again : ReplayReservation) (now later : ℕ) (store : List ReplayReservation)
      (rs : List (ReplayReservation × ℕ))
      → (reserve_replay before r now store).1 ≡ reserved
      → again.sender_fingerprint ≡ r.sender_fingerprint
      → again.request_id ≡ r.request_id
      → AllWithin r rs
      → is_retained later r ≡ true
      → (reserve_replay before again later (run rs (reserve_replay before r now store).0)).1
        ≢ reserved
  reserve_replay-reserve_replay r again now later store rs e f i ks k =
      remembered-refused r again later _ f i k
        (run-remembers r rs _ ks (accepted-remembers r now store e))

  -- A reservation never grows the store beyond its limit.
  pub length-reserve_replay :
      (r : ReplayReservation) (now : ℕ) (store : List ReplayReservation)
      → length store ≤ max_replay_reservations
      → length (reserve_replay before r now store).0 ≤ max_replay_reservations
  unfolding reserve_replay
  length-reserve_replay r now store o =
      let live = keep (is_retained now) store in
      elim (Bool-cases
        (leb r.expires_at now || ltb (now + max_reservation_future_ms) r.expires_at)) [
          | inl h ↦ rw (h, reserve_replay) o
          | inr h ↦ elim (Bool-cases (any (same_request r) live)) [
            | inl g ↦ rw (h, g, reserve_replay) o
            | inr g ↦ elim (Bool-cases (leb max_replay_reservations (length live))) [
              | inl f ↦ rw (h, g, f, reserve_replay) o
              | inr f ↦
                  rw (h, g, f, reserve_replay)
                    (ground (arith, length-sort (live ++ (r ∷ [])), length-append live (r ∷ [])))
            ]
          ]
        ]
