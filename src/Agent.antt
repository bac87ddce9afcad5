-- ===== src/Agent.antt =====
-- The agent loop of the runtime.
pub mod Flow
pub mod Nodes
pub mod Loop
pub mod Tools
