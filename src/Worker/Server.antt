-- ===== src/Worker/Server.antt =====
-- src/servers/worker/server.rs: the connection of a worker, from its key to its last poll.
pub mod Latency
pub mod Jitter
pub mod Registry
pub mod Chunks
pub mod Scanner
pub mod Sanitize
pub mod Relay
pub mod Session
pub mod Poll
pub mod Connection
pub mod Progress
pub mod Release
mod Tests
