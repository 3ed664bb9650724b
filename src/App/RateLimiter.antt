-- ===== src/App/RateLimiter.antt =====
-- src/app/rate_limiter.rs: sliding-window limits and slots for concurrent requests, for each key.
pub mod Window
pub mod State
pub mod Scan
pub mod Check
pub mod Prune
pub mod History
pub mod Loop
pub mod Sliding
pub mod Slots
mod Tests
