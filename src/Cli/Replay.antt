-- ===== src/Cli/Replay.antt =====
-- packages/cli/src/replay-store.ts: the requests that an installation has answered.
pub mod Memory
use agentcall.Base.{
  ℕ, ◌+◌, ◌*◌, Bool, true, false, ◌&&◌, ◌||◌, List, [], ◌∷◌, ◌++◌, String, ◌==◌, if◌then◌else◌, leb,
  ltb, length, keep, any, string_eq,
}

abbrev pub max_replay_reservations : ℕ
max_replay_reservations = 10_000

abbrev pub replay_retention_skew_ms : ℕ
replay_retention_skew_ms = 120_000

abbrev pub max_reservation_future_ms : ℕ
max_reservation_future_ms = 360_000 + replay_retention_skew_ms

pub record ReplayReservation : Type 0 where
  pub sender_fingerprint : String
  pub request_id : String
  pub expires_at : ℕ

pub data Reservation : Type 0 where
  reserved replay_detected unbounded store_full : Reservation

abbrev pub is_retained : ℕ → ReplayReservation → Bool
is_retained now r = ltb now (r.expires_at + replay_retention_skew_ms)

abbrev pub same_request : ReplayReservation → ReplayReservation → Bool
same_request r s = (s.sender_fingerprint == r.sender_fingerprint) && (s.request_id == r.request_id)

-- `before` is the comparison of the texts by the locale, of which nothing is assumed.
module _ (before : ReplayReservation → ReplayReservation → Bool) where
  unfoldable pub insert_sorted : ReplayReservation → List ReplayReservation → List ReplayReservation
  insert_sorted r [] = r ∷ []
  insert_sorted r (s ∷ ss) = if before r s then r ∷ s ∷ ss else s ∷ insert_sorted r ss

  unfoldable pub sort : List ReplayReservation → List ReplayReservation
  sort [] = []
  sort (r ∷ rs) = insert_sorted r (sort rs)

  unfoldable pub reserve_replay :
      ReplayReservation → ℕ → List ReplayReservation → List ReplayReservation × Reservation
  reserve_replay r now store =
      let live = keep (is_retained now) store in
      if leb r.expires_at now || ltb (now + max_reservation_future_ms) r.expires_at
      then (store, unbounded)
      else if any (same_request r) live
      then (store, replay_detected)
      else if leb max_replay_reservations (length live)
      then (store, store_full)
      else (sort (live ++ (r ∷ [])), reserved)
