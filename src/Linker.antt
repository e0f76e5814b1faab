-- ===== src/Linker.antt =====
-- The cross-repository linkers (src/linker).
pub mod ImportsToRepo
pub mod Manual
mod Tests
pub mod Calls
pub mod Upserts
pub mod Names
pub mod IdlLinks
