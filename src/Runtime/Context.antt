-- ===== src/Runtime/Context.antt =====
-- runtime_context.py: the context in which a released agent runs: who may run it, with which tools.
-- The queries of the control plane's database are parameters.
pub mod Scope
pub mod Authz
pub mod Gate
