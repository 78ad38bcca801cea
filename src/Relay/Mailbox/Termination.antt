-- ===== src/Relay/Mailbox/Termination.antt =====
-- `dispatchNext` calls itself again only after it has ended a call that waits.
use agentcall.Base.{string_eq}
