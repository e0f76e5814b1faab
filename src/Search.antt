-- ===== src/Search.antt =====
-- Search (src/search): chunks of a file, the words of a text, and the cache of an index.
pub mod Chunker
pub mod Tokens
pub mod Cache
