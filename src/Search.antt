-- ===== src/Search.antt =====
-- src/search.rs: matching, ranking and the selection of the best results.
pub mod Heap
pub mod PathView
pub mod Text
pub mod Glob
pub mod Owned
pub mod Finder
pub mod Utf8
pub mod PreparedGlob
pub mod Fuzzy
pub mod Query
