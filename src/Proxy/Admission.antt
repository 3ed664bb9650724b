-- ===== src/Proxy/Admission.antt =====
-- src/servers/proxy/admission.rs: who may send a request.
pub mod Tables
pub mod Authorize
