-- ===== src/Proxy/Queue.antt =====
-- src/servers/proxy/queue.rs: the queues of waiting requests, one for each model and kind and one
-- for each worker. Here each method runs alone, as one step of the state.
pub mod Deques
pub mod Dequeue
pub mod Expiry
pub mod Count
pub mod Conservation
pub mod Sweep
pub mod Swept
pub mod Source
pub mod Enqueue
mod Tests
