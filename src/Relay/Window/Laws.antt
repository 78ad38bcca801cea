-- ===== src/Relay/Window/Laws.antt =====
-- The sweep does not change what the windows say, and the windows keep their limit.
use agentcall.Base.{
  ℕ, zero, suc, ◌≤◌, ◌≡◌, Bool, true, false, Option, some, String, List, [], ◌∷◌, ◌++◌,
  if◌then◌else◌, ltb, get_or, any, keep, length, string_eq, arith, refl, sym, ap, ◌∙◌, eq_iff, ◌==◌,
  Bool-cases, inl, inr,
}
use agentcall.Base.Map.{lookup, delete}
use agentcall.Base.Map.Laws.{lookup-put, lookup-delete}
use agentcall.Relay.Window.{
  Windows, is_live_stamp, is_stale, page_after, delete_stale, last_key, sweep, pruned_recently,
  cursor_of, prune_stale_rate_limit_keys, read_live_rate_limit_stamps, record_rate_limit_hit,
  rate_limit_prune_page_size, rate_limit_prune_max_pages,
}

keep-stale :
    (now later : ℕ) (stamps : List ℕ)
    → now ≤ later
    → any (is_live_stamp now) stamps ≡ false
    → keep (is_live_stamp later) stamps ≡ []
keep-stale now later [] o h = refl
keep-stale now later (x ∷ xs) o h = ground (arith, keep-stale now later xs o)

live : String → ℕ → List (String × List ℕ) → List ℕ
live c at m = keep (is_live_stamp at) (get_or (lookup c m) [])

drop_stale :
    (c k : String) (now later : ℕ) (m : List (String × List ℕ))
    → now ≤ later
    → is_stale now (get_or (lookup k m) []) ≡ true
    → live c later (delete k m) ≡ live c later m
unfolding live
drop_stale c k now later m o h = elim (Bool-cases (k == c)) [
  | inl e ↦
      rw (lookup-delete k c m, e)
        (sym (keep-stale now later (get_or (lookup c m) []) o (ground (arith, eq_iff k c))))
  | inr e ↦ rw (lookup-delete k c m, e) refl
]

delete_stale-live :
    (c : String) (now later : ℕ) (ks : List String) (m : List (String × List ℕ))
    → now ≤ later
    → live c later (delete_stale now ks m) ≡ live c later m
unfolding delete_stale
delete_stale-live c now later [] m o = refl
delete_stale-live c now later (k ∷ ks) m o =
    elim (Bool-cases (is_stale now (get_or (lookup k m) []))) [
      | inl h ↦
          rw (h, delete_stale)
            (delete_stale-live c now later ks (delete k m) o ∙ drop_stale c k now later m o h)
      | inr h ↦ rw (h, delete_stale) (delete_stale-live c now later ks m o)
    ]

sweep-live :
    (pages : ℕ) (c : String) (now later : ℕ) (cursor : Option String) (m : List (String × List ℕ))
    → now ≤ later
    → live c later (sweep pages now cursor m).stamps ≡ live c later m
unfolding sweep
sweep-live zero c now later cursor m o = refl
sweep-live (suc pages) c now later cursor m o =
    go (page_after cursor m) refl
      (λ at ks. sweep-live pages c now later at (delete_stale now ks m) o)
  where
    go :
        (p : List String)
        → page_after cursor m ≡ p
        → ((at : Option String) (ks : List String)
            → live c later (sweep pages now at (delete_stale now ks m)).stamps
              ≡ live c later (delete_stale now ks m))
        → live c later (sweep (suc pages) now cursor m).stamps ≡ live c later m
    go [] e again = rw (e, sweep) refl
    go (k ∷ ks) e again = elim (Bool-cases (ltb (length (k ∷ ks)) rate_limit_prune_page_size)) [
      | inl h ↦ rw (e, h, sweep) (delete_stale-live c now later (k ∷ ks) m o)
      | inr h ↦
          rw (e, h, sweep)
            (again (some (last_key k ks)) (k ∷ ks) ∙ delete_stale-live c now later (k ∷ ks) m o)
    ]

-- The sweep changes no caller's window: from then on, what is read of any caller is what would
-- have been read without it.
pub prune_stale_rate_limit_keys-read_live_rate_limit_stamps :
    (c : String) (now later : ℕ) (w : Windows)
    → now ≤ later
    → read_live_rate_limit_stamps c later (prune_stale_rate_limit_keys now w)
      ≡ read_live_rate_limit_stamps c later w
unfolding prune_stale_rate_limit_keys read_live_rate_limit_stamps live
prune_stale_rate_limit_keys-read_live_rate_limit_stamps c now later w o =
    elim (Bool-cases (pruned_recently now w)) [
      | inl h ↦ rw (h, prune_stale_rate_limit_keys) refl
      | inr h ↦
          rw (h, prune_stale_rate_limit_keys)
            (sweep-live rate_limit_prune_max_pages c now later (cursor_of w.maintenance) w.stamps o)
    ]

keep-append : (p : ℕ → Bool) (xs ys : List ℕ) → keep p (xs ++ ys) ≡ keep p xs ++ keep p ys
keep-append p [] ys = refl
keep-append p (x ∷ xs) ys = ground (arith, keep-append p xs ys)

keep-keep :
    (now later : ℕ) (xs : List ℕ)
    → now ≤ later
    → keep (is_live_stamp later) (keep (is_live_stamp now) xs) ≡ keep (is_live_stamp later) xs
keep-keep now later [] o = refl
keep-keep now later (x ∷ xs) o = ground (arith, keep-keep now later xs o)

-- A recorded frame counts for exactly the window after it, next to the frames before it that
-- still count; the windows of the other callers do not change.
pub record_rate_limit_hit-read_live_rate_limit_stamps :
    (c other : String) (now later : ℕ) (w : Windows)
    → now ≤ later
    → let after = record_rate_limit_hit c (read_live_rate_limit_stamps c now w) now w in
      read_live_rate_limit_stamps other later after ≡ (
        if c == other
        then read_live_rate_limit_stamps c later w ++ keep (is_live_stamp later) (now ∷ [])
        else read_live_rate_limit_stamps other later w)
unfolding record_rate_limit_hit read_live_rate_limit_stamps
record_rate_limit_hit-read_live_rate_limit_stamps c other now later w o =
    let stamps = get_or (lookup c w.stamps) [] in
    elim (Bool-cases (c == other)) [
      | inl e ↦
          rw
            (
              lookup-put c other (keep (is_live_stamp now) stamps ++ (now ∷ []))
                  (prune_stale_rate_limit_keys now w).stamps,
              e,
            )
            (keep-append (is_live_stamp later) (keep (is_live_stamp now) stamps) (now ∷ [])
              ∙ ap (λ l. l ++ keep (is_live_stamp later) (now ∷ [])) (keep-keep now later stamps o))
      | inr e ↦
          rw
            (
              lookup-put c other (keep (is_live_stamp now) stamps ++ (now ∷ []))
                  (prune_stale_rate_limit_keys now w).stamps,
              e,
            )
            (prune_stale_rate_limit_keys-read_live_rate_limit_stamps other now later w o)
    ]
