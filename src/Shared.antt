-- ===== src/Shared.antt =====
-- src/shared: what the servers share.
pub mod Http
pub mod Sqlite
pub mod Wire
pub mod Capture
pub mod TaskPool
