-- ===== src/Worker.antt =====
-- src/servers/worker: the workers that are connected, and their connections.
pub mod Models
pub mod Connections
pub mod Overseer
pub mod Server
mod Tests
