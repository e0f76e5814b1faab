-- ===== src/Graph.antt =====
-- The cross-repository graph (src/graph).
pub mod Model
pub mod Store
