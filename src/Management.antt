-- ===== src/Management.antt =====
-- src/servers/management: the server of the operators.
pub mod Models
pub mod Keys
pub mod Command
pub mod Dashboard
pub mod Permissions
pub mod Server
pub mod Safety
pub mod Secrets
pub mod Creation
mod Tests
