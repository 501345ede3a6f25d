-- ===== src/Syncplan.antt =====
-- internal/syncplan: where a tenant object lands on the host, and how it is mapped back.
pub mod Sanitize
pub mod HostName
pub mod Plan
pub mod Transform
