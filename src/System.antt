-- ===== src/System.antt =====
-- The service's tasks together: the command loop, the clients and the links to other relays, each a
-- step at a time and in any order.
pub mod Channels
pub mod Grants
pub mod Operations
pub mod Steps
pub mod Orderly
pub mod Entitled
pub mod Handling
pub mod Preserved
pub mod Presence
pub mod Outage
pub mod Typed
