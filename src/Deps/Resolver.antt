-- ===== src/Deps/Resolver.antt =====
-- src/deps/resolver: which file of the repository an import names.
pub mod Keys
pub mod Paths
pub mod Build
pub mod Closest
pub mod Resolve
pub mod Keyed
pub mod Indexed
pub mod Sound
pub mod Found
pub mod Strip
mod Tests
