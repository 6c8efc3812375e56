-- ===== src/Attrs.antt =====
-- internal/attrs: flat dotted attribute keys expanded into nested values.
pub mod Segments
pub mod Trie
pub mod Unflatten
pub mod Find
pub mod Examples
