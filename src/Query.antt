-- ===== src/Query.antt =====
-- Queries over the graph store (src/query).
pub mod Callers
pub mod FindIdlImpl
pub mod Dependencies
pub mod Symbol
