-- ===== src/Deps.antt =====
-- The file-level dependency graph (src/deps).
pub mod Graph
pub mod Traverse
pub mod Store
pub mod Build
pub mod Resolver
pub mod Dsm
