-- ===== src/Examples.antt =====
-- Concrete runs of the relay and of an installation.
mod Data
mod Pairs
mod Mailbox
mod Stores
mod Guard
mod Sealing
mod Listener
mod Listing
