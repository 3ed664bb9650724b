-- ===== src/App.antt =====
-- src/app: the configuration, the rate limiter and the shared state.
pub mod Config
pub mod RateLimiter
pub mod State
pub mod Access
