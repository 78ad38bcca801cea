-- ===== src/Shared.antt =====
-- packages/shared/src: what the relay and the installations encode alike.
pub mod Utf8
pub mod Limits
pub mod Canonical
pub mod Envelope
