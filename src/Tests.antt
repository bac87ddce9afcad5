-- ===== src/Tests.antt =====
-- The theorems applied to concrete inputs.
mod Data
mod Store
mod Recalls
mod Lifecycles
pub mod Caches
mod Approved
mod Contexts
mod Agents
mod Workflows
pub mod Releases
mod Accounts
mod Connections
