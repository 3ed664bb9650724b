-- ===== src/Proxy/Planner.antt =====
-- src/servers/proxy/planner.rs: where a request goes.
pub mod Endpoint
pub mod Workers
pub mod Probing
pub mod Listing
pub mod Plan
pub mod Effects
pub mod Clients
