-- ===== src/Runtime.antt =====
-- The runtime service's release configurations, approvals and authorisation.
pub mod Cache
pub mod Invalidation
pub mod Approvals
pub mod Context
pub mod Connections
