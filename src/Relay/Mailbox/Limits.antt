-- ===== src/Relay/Mailbox/Limits.antt =====
-- The rate limit of the callers of one mailbox.
use agentcall.Base.{
  ℕ, ◌+◌, ◌≤◌, ◌≡◌, Bool, false, not, ◌&&◌, ◌||◌, Option, none, some, String, List, [], ◌∷◌, arith,
  inl, inr, Option-cases, Bool-cases, leb, length, length-append, length-keep, is_some, keep, ◌==◌,
  string_eq,
}
use agentcall.Relay.Task.{PersistedTask, Envelope}
use agentcall.Relay.Store.{Storage, first_ordered}
use agentcall.Relay.Window.{
  Windows, read_live_rate_limit_stamps, rate_limit_per_hour, record_rate_limit_hit, is_live_stamp,
}
use agentcall.Relay.Window.Laws.{record_rate_limit_hit-read_live_rate_limit_stamps}
use agentcall.Relay.Mailbox.{truthy}
use agentcall.Relay.Mailbox.Admit.{DurableAdmission, admitted, existing, capacity, conflict}
use agentcall.Relay.Mailbox.Handler.{World}
use agentcall.Relay.Mailbox.Caller.{
  CallerAttachment, CallerFrame, answer_admission, enqueue, ring, place, call_frame,
  oversized_frame, caller_message, recall, request_routed,
}

-- From a time on, no caller has more frames in its window than the limit.
abbrev pub IsLimited : ℕ → Windows → Type 0
IsLimited now w =
    (c : String) (later : ℕ)
    → now ≤ later
    → length (read_live_rate_limit_stamps c later w) ≤ rate_limit_per_hour

leb-false : (a b : ℕ) → leb a b ≡ false → b + 1 ≤ a
leb-false a b h = ground arith

keep-fewer :
    (now later : ℕ) (xs : List ℕ)
    → now ≤ later
    → length (keep (is_live_stamp later) xs) ≤ length (keep (is_live_stamp now) xs)
keep-fewer now later [] o = omega arith
keep-fewer now later (x ∷ xs) o = ground (arith, keep-fewer now later xs o)

live_fewer :
    (c : String) (now later : ℕ) (w : Windows)
    → now ≤ later
    → length (read_live_rate_limit_stamps c later w) ≤ length (read_live_rate_limit_stamps c now w)
unfolding read_live_rate_limit_stamps
live_fewer c now later w o = keep-fewer now later _ o

module _ (now : ℕ) (att : CallerAttachment) (windows : Windows) (x : IsLimited now windows) where
  hit-IsLimited :
      let stamps = read_live_rate_limit_stamps att.from now windows in
      leb rate_limit_per_hour (length stamps) ≡ false
      → IsLimited now (record_rate_limit_hit att.from stamps now windows)
  hit-IsLimited room c later o =
      let e = record_rate_limit_hit-read_live_rate_limit_stamps att.from c now later windows o in
      elim (Bool-cases (att.from == c)) [
        | inl h ↦
            rw (e, h)
              (omega (
                arith,
                length-append (read_live_rate_limit_stamps att.from later windows)
                    (keep (is_live_stamp later) (now ∷ [])),
                length-keep (is_live_stamp later) (now ∷ []),
                live_fewer att.from now later windows o,
                leb-false rate_limit_per_hour
                    (length (read_live_rate_limit_stamps att.from now windows)) room,
              ))
        | inr h ↦ rw (e, h) (x c later o)
      ]

  module _ (w : World) (digest : Envelope → String) (fresh : String) (s : Storage) where
    answer_admission-IsLimited :
        (stamps : List ℕ) (t : PersistedTask) (r : Storage × DurableAdmission)
        → IsLimited now (record_rate_limit_hit att.from stamps now windows)
        → IsLimited now (answer_admission w now att stamps t windows r).windows
    unfolding answer_admission
    answer_admission-IsLimited stamps t (r, admitted _) y = y
    answer_admission-IsLimited stamps t (r, existing _) y = x
    answer_admission-IsLimited stamps t (r, capacity) y = y
    answer_admission-IsLimited stamps t (r, conflict) y = x

    place-IsLimited :
        (listening : Bool) (frame : CallerFrame) (stamps : List ℕ)
        → IsLimited now (record_rate_limit_hit att.from stamps now windows)
        → IsLimited now (place w digest now fresh listening att frame stamps windows s).windows
    unfolding place enqueue ring
    place-IsLimited listening frame stamps y =
        elim (Bool-cases (not listening || frame.durable && is_some (first_ordered s.queue))) [
          | inr h ↦ rw (h, place) y
          | inl h ↦
              elim (Bool-cases (frame.durable && att.mailbox_enabled && not att.caller_blocked)) [
                | inl m ↦ rw (h, m, place) (answer_admission-IsLimited stamps _ _ y)
                | inr m ↦ elim (Bool-cases (not listening)) [
                  | inl l ↦ rw (h, m, l, place) x
                  | inr l ↦ rw (h, m, l, place) y
                ]
              ]
        ]

    call_frame-IsLimited :
        (listening : Bool) (parsed : Option CallerFrame)
        → let stamps = read_live_rate_limit_stamps att.from now windows in
          IsLimited now
            (call_frame w digest now fresh listening att parsed stamps windows s).windows
    unfolding call_frame
    call_frame-IsLimited listening none = x
    call_frame-IsLimited listening (some frame) =
        let stamps = read_live_rate_limit_stamps att.from now windows in
        elim (Bool-cases (not (request_routed att frame.envelope))) [
          | inl h ↦ rw (h, call_frame) x
          | inr h ↦ elim (Option-cases (recall digest att frame s)) [
            | inr (_, e) ↦ rw (h, e, call_frame) x
            | inl e ↦ elim (Bool-cases (leb rate_limit_per_hour (length stamps))) [
              | inl l ↦ rw (h, e, l, call_frame) x
              | inr l ↦
                  rw (h, e, l, call_frame)
                    (place-IsLimited listening frame stamps (hit-IsLimited l))
            ]
          ]
        ]

    -- A caller's frame, of any kind and with any answer, keeps every caller within 30 counted frames
    -- for each hour, from that time on.
    pub caller_message-IsLimited :
        (listening oversized : Bool) (parsed : Option CallerFrame)
        → IsLimited now
            (caller_message w digest now fresh listening att oversized parsed windows s).windows
    unfolding caller_message oversized_frame
    caller_message-IsLimited listening oversized parsed =
        let stamps = read_live_rate_limit_stamps att.from now windows in
        elim (Bool-cases (is_some (truthy att.call_id))) [
          | inl h ↦ rw (h, caller_message) x
          | inr h ↦ elim (Bool-cases oversized) [
            | inr o ↦ rw (h, o, caller_message) (call_frame-IsLimited listening parsed)
            | inl o ↦ elim (Bool-cases (leb rate_limit_per_hour (length stamps))) [
              | inl l ↦ rw (h, o, l, caller_message, oversized_frame) x
              | inr l ↦ rw (h, o, l, caller_message, oversized_frame) (hit-IsLimited l)
            ]
          ]
        ]
