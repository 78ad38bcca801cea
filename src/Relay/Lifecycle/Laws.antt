-- ===== src/Relay/Lifecycle/Laws.antt =====
-- Lifecycles under any sequence of frames: no regress, one terminal reason, a fixed principal.
use agentcall.Base.{◌≤◌, ◌≡◌, refl, List, [], ◌∷◌, some, arith, ◌∙◌}
use agentcall.Relay.Lifecycle.{
  CallLifecycle, LiveCallPhase, CallTerminalReason, phase_rank, advance_authorized_call,
  terminate_authorized_call,
}

-- What a peer or the relay may do to a lifecycle.
pub data Event : Type 0 where
  advance : LiveCallPhase → Event
  terminate : CallTerminalReason → Event

pub apply : CallLifecycle → Event → CallLifecycle
apply c (advance p) = advance_authorized_call c p
apply c (terminate r) = terminate_authorized_call c r

pub run : CallLifecycle → List Event → CallLifecycle
run c [] = c
run c (e ∷ es) = run (apply c e) es

-- One lifecycle is reached from another by frames that only move forward.
pub record Follows (c d : CallLifecycle) : Type 0 where
  pub forward : phase_rank c.phase ≤ phase_rank d.phase
  pub same_principal : d.principal ≡ c.principal
  pub same_deadline : d.deadline ≡ c.deadline
  pub sticky : (r : CallTerminalReason) → c.terminal ≡ some r → d.terminal ≡ some r
  pub frozen : (r : CallTerminalReason) → c.terminal ≡ some r → d.phase ≡ c.phase

Follows-refl : (c : CallLifecycle) → Follows c c
Follows-refl c = record {
  forward = omega arith;
  same_principal = refl;
  same_deadline = refl;
  sticky = λ r h. h;
  frozen = λ r h. refl;
}

Follows-trans : {c d e : CallLifecycle} → Follows c d → Follows d e → Follows c e
Follows-trans f g = record {
  forward = omega arith;
  same_principal = g.same_principal ∙ f.same_principal;
  same_deadline = g.same_deadline ∙ f.same_deadline;
  sticky = λ r h. g.sticky r (f.sticky r h);
  frozen = λ r h. g.frozen r (f.sticky r h) ∙ f.frozen r h;
}

apply-Follows : (c : CallLifecycle) (e : Event) → Follows c (apply c e)
unfolding apply advance_authorized_call terminate_authorized_call
apply-Follows c (advance p) = record {
  forward = ground arith;
  same_principal = ground arith;
  same_deadline = ground arith;
  sticky = λ r h. ground arith;
  frozen = λ r h. ground arith;
}
apply-Follows c (terminate s) = record {
  forward = ground arith;
  same_principal = ground arith;
  same_deadline = ground arith;
  sticky = λ r h. ground arith;
  frozen = λ r h. ground arith;
}

-- Whatever frames arrive, in whatever order and however often, the phase never regresses, the
-- principal and the deadline never change, and a terminal lifecycle keeps its reason and phase.
pub run-Follows : (c : CallLifecycle) (es : List Event) → Follows c (run c es)
unfolding run
run-Follows c [] = Follows-refl c
run-Follows c (e ∷ es) = Follows-trans (apply-Follows c e) (run-Follows (apply c e) es)
