-- ===== src/Memory.antt =====
-- The governed memory plane (services/runtime/src/aegora_runtime/memory): its data, the policy on
-- what an agent may recall, the versioned store, the service facade and the candidate lifecycle.
pub mod Models
pub mod Policy
pub mod NativePg
pub mod Provider
pub mod Ranking
pub mod Service
pub mod Decision
pub mod Lifecycle
pub mod Queue
