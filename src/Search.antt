-- ===== src/Search.antt =====
-- src/runtime/search.c: searches that the collector makes in sorted structures.
pub mod Brothertree
pub mod Bsearch
mod Tests
