-- ===== src/Relay/Window.antt =====
-- apps/relay/src/call-rate-limit.ts: the sliding window of call frames of each caller, and the
-- bounded sweep over the callers that have gone quiet.
pub mod Laws
use agentcall.Base.{
  ℕ, zero, suc, ◌+◌, ◌-◌, Bool, true, false, not, ◌&&◌, Option, none, some, String, List, [], ◌∷◌,
  ◌++◌, if◌then◌else◌, ltb, leb, get_or, is_some, any, keep, take, length, string_eq,
}
use agentcall.Base.Map.{lookup, put, delete}
use Prim.Native.String.{compare}
use Prim.Native.Nat.{Ordering}

abbrev pub rate_limit_window_ms : ℕ
rate_limit_window_ms = 3_600_000

abbrev pub rate_limit_per_hour : ℕ
rate_limit_per_hour = 30

abbrev pub rate_limit_prune_interval_ms : ℕ
rate_limit_prune_interval_ms = 60_000

abbrev pub rate_limit_prune_page_size : ℕ
rate_limit_prune_page_size = 128

abbrev pub rate_limit_prune_max_pages : ℕ
rate_limit_prune_max_pages = 4

abbrev pub rate_limit_prune_continue_delay_ms : ℕ
rate_limit_prune_continue_delay_ms = 1_000

pub record RateLimitMaintenance : Type 0 where
  pub cursor : String
  pub due : ℕ

-- The keys under `rl:`, and the two keys of the sweep.
pub record Windows : Type 0 where
  pub stamps : List (String × List ℕ)
  pub pruned_at : Option ℕ
  pub maintenance : Option RateLimitMaintenance

-- `now - stamp < RATE_LIMIT_WINDOW_MS`, where a stamp of the future counts too
abbrev pub is_live_stamp : ℕ → ℕ → Bool
is_live_stamp now stamp = ltb (now - stamp) rate_limit_window_ms

abbrev pub is_stale : ℕ → List ℕ → Bool
is_stale now stamps = not (any (is_live_stamp now) stamps)

-- The order of the storage's keys.
abbrev pub before : String → String → Bool
before a b = elim (compare a b) [ Ordering.lt ↦ true | _ ↦ false ]

unfoldable pub insert_key : String → List String → List String
insert_key k [] = k ∷ []
insert_key k (j ∷ ks) = if before j k then j ∷ insert_key k ks else k ∷ j ∷ ks

unfoldable pub sorted_keys : List (String × List ℕ) → List String
sorted_keys [] = []
sorted_keys ((k, _) ∷ m) = insert_key k (sorted_keys m)

abbrev pub starts_after : Option String → String → Bool
starts_after none k = true
starts_after (some cursor) k = before cursor k

-- `storage.list({ prefix, startAfter, limit })`
unfoldable pub page_after : Option String → List (String × List ℕ) → List String
page_after cursor m = take rate_limit_prune_page_size (keep (starts_after cursor) (sorted_keys m))

-- `storage.delete(stale)`
unfoldable pub delete_stale : ℕ → List String → List (String × List ℕ) → List (String × List ℕ)
delete_stale now [] m = m
delete_stale now (k ∷ ks) m =
    delete_stale now ks (if is_stale now (get_or (lookup k m) []) then delete k m else m)

abbrev pub last_key : String → List String → String
last_key k [] = k
last_key k (j ∷ ks) = last_key j ks

pub record Sweep : Type 0 where
  pub complete : Bool
  pub cursor : Option String
  pub stamps : List (String × List ℕ)

-- The loop over at most the given number of pages.
unfoldable pub sweep : ℕ → ℕ → Option String → List (String × List ℕ) → Sweep
sweep zero now cursor m = record { complete = false; cursor = cursor; stamps = m }
sweep (suc pages) now cursor m = elim (page_after cursor m) [
  | [] ↦ record { complete = true; cursor = cursor; stamps = m }
  | k ∷ ks ↦
      let rest = delete_stale now (k ∷ ks) m in
      if ltb (length (k ∷ ks)) rate_limit_prune_page_size
      then record { complete = true; cursor = some (last_key k ks); stamps = rest }
      else sweep pages now (some (last_key k ks)) rest
]

abbrev pub pruned_recently : ℕ → Windows → Bool
pruned_recently now w =
    not (is_some w.maintenance)
    && elim w.pruned_at [ none ↦ false | some at ↦ ltb (now - at) rate_limit_prune_interval_ms ]

abbrev pub cursor_of : Option RateLimitMaintenance → Option String
cursor_of none = none
cursor_of (some m) = some m.cursor

unfoldable pub prune_stale_rate_limit_keys : ℕ → Windows → Windows
prune_stale_rate_limit_keys now w =
    let r = sweep rate_limit_prune_max_pages now (cursor_of w.maintenance) w.stamps in
    if pruned_recently now w then w else record {
      stamps = r.stamps;
      pruned_at = some now;
      maintenance =
          if r.complete
          then none
          else some (record {
            cursor = get_or r.cursor "";
            due = now + rate_limit_prune_continue_delay_ms;
          });
    }

unfoldable pub read_live_rate_limit_stamps : String → ℕ → Windows → List ℕ
read_live_rate_limit_stamps caller now w =
    keep (is_live_stamp now) (get_or (lookup caller w.stamps) [])

unfoldable pub record_rate_limit_hit : String → List ℕ → ℕ → Windows → Windows
unfolding prune_stale_rate_limit_keys
record_rate_limit_hit caller live now w =
    let pruned = prune_stale_rate_limit_keys now w in
    record pruned { stamps = put caller (live ++ (now ∷ [])) pruned.stamps }

unfoldable pub continue_rate_limit_maintenance : ℕ → Windows → Windows
continue_rate_limit_maintenance now w = elim w.maintenance [
  | none ↦ w
  | some m ↦ if ltb now m.due then w else prune_stale_rate_limit_keys now w
]

-- When the sweep goes on, as `scheduleNextAlarm` reads it.
abbrev pub maintenance_due : Windows → Option ℕ
maintenance_due w = elim w.maintenance [ none ↦ none | some m ↦ some m.due ]
