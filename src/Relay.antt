-- ===== src/Relay.antt =====
-- apps/relay/src: the relay.
pub mod Lifecycle
pub mod Task
pub mod Store
pub mod Audit
pub mod Mailbox
pub mod Window
pub mod Listing
