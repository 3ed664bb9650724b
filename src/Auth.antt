-- ===== src/Auth.antt =====
-- src/auth: roles, key records and the model policy of a key.
pub mod Models
pub mod Policy
pub mod Keys
mod Tests
