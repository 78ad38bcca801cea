-- ===== src/Cli.antt =====
-- packages/cli/src: the stores and decisions of an installation. The content of a store's file is
-- a list; a store is read and written under a file lock, so each function is one whole operation.
pub mod Journal
pub mod Replay
pub mod Contexts
pub mod Peers
pub mod Access
pub mod Outbound
pub mod Guard
pub mod Sealing
pub mod Listener
