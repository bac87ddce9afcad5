-- ===== src/Control.antt =====
-- The backend of the control plane, where agents, tools, roles and releases are kept.
pub mod Workflow
pub mod Authz
pub mod Platform
pub mod Access
pub mod Releases
pub mod Agents
pub mod Identity
pub mod Roles
