-- ===== src/Memory/NativePg.antt =====
-- memory/native_pg.py: the versioned memory store over PostgreSQL, its methods and their proofs.
pub mod Table
pub mod Read
pub mod Remember
pub mod Forget
pub mod Expire
pub mod Rows
pub mod Invariant
pub mod Current
pub mod Frame
pub mod Removal
pub mod History
