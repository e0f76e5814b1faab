-- ===== src/Indexer.antt =====
-- The indexer (src/indexer).
pub mod Incremental
