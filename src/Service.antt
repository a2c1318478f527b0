-- ===== src/Service.antt =====
-- dersp/src/service.rs: the routing tables and the loop that owns them.
pub mod State
pub mod Commands
pub mod Clients
pub mod Routing
pub mod Subscription
pub mod Admission
pub mod Startup
pub mod Linking
pub mod Serving
pub mod Joining
pub mod Vouching
