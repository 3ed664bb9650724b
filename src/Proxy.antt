-- ===== src/Proxy.antt =====
-- src/servers/proxy: admission, routing and queueing of the clients' requests.
pub mod Models
pub mod State
pub mod Task
pub mod Queue
pub mod Planner
pub mod Admission
pub mod Server
pub mod Safety
mod Tests
pub mod Probe
