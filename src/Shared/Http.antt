-- ===== src/Shared/Http.antt =====
-- src/shared/http: requests, responses and the fields read from them.
pub mod Json
pub mod Text
pub mod Request
pub mod Response
pub mod Usage
pub mod TokenUsage
pub mod Frame
