-- ===== src/Cli/Guard.antt =====
-- packages/cli/src/guard.ts, scope.ts and path-canon.ts: what the tools of an answering agent may
-- reach.
pub mod Paths
pub mod Scope
pub mod Decide
pub mod Run
pub mod Containment
pub mod Canonical
pub mod Reach
pub mod Exceptions
pub mod Outcome
