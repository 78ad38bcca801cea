-- ===== src/Relay/Lifecycle.antt =====
-- apps/relay/src/call-lifecycle.ts: the phases of one authorised call, shared by the live and the
-- durable routing path.
pub mod Laws
use agentcall.Base.{
  ℕ, Bool, true, false, Option, none, some, String, leb, if◌then◌else◌, is_some, ◌||◌,
}

pub record TeamCallPrincipal : Type 0 where
  pub organization : String
  pub participant : String
  pub credential_generation : ℕ

pub data LiveCallPhase : Type 0 where
  submitted accepted working : LiveCallPhase

pub data CallTerminalReason : Type 0 where
  completed failed canceled expired : CallTerminalReason

pub record CallLifecycle : Type 0 where
  pub principal : TeamCallPrincipal
  pub phase : LiveCallPhase
  pub deadline : ℕ
  pub terminal : Option CallTerminalReason

abbrev pub phase_rank : LiveCallPhase → ℕ
phase_rank submitted = 0
phase_rank accepted = 1
phase_rank working = 2

-- `tenant.ts`'s `Identity`; the role plays no part in a call.
pub record Identity : Type 0 where
  pub org : String
  pub handle : String
  pub agent_id : String
  pub recovery_generation : ℕ

unfoldable pub team_call_principal : Identity → TeamCallPrincipal
team_call_principal i = record {
  organization = i.org;
  participant = i.handle;
  credential_generation = i.recovery_generation;
}

unfoldable pub begin_authorized_call : TeamCallPrincipal → ℕ → CallLifecycle
begin_authorized_call principal deadline = record {
  principal = principal;
  phase = submitted;
  deadline = deadline;
  terminal = none;
}

unfoldable pub advance_authorized_call : CallLifecycle → LiveCallPhase → CallLifecycle
advance_authorized_call lifecycle requested =
    if is_some lifecycle.terminal || leb (phase_rank requested) (phase_rank lifecycle.phase)
    then lifecycle
    else record lifecycle { phase = requested }

unfoldable pub terminate_authorized_call : CallLifecycle → CallTerminalReason → CallLifecycle
terminate_authorized_call lifecycle reason =
    if is_some lifecycle.terminal then lifecycle else record lifecycle { terminal = some reason }

unfoldable pub expire_authorized_call : CallLifecycle → ℕ → Option CallLifecycle
unfolding terminate_authorized_call
expire_authorized_call lifecycle now =
    if leb lifecycle.deadline now then some (terminate_authorized_call lifecycle expired) else none
