-- ===== src/Shared/Limits.antt =====
-- packages/shared/src/protocol.ts: the limits that both sides keep.
use agentcall.Base.{ℕ, ◌*◌}

abbrev pub relay_call_timeout_ms : ℕ
relay_call_timeout_ms = 360_000

abbrev pub mailbox_ttl_ms : ℕ
mailbox_ttl_ms = 72 * 60 * 60_000
