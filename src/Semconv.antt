-- ===== src/Semconv.antt =====
-- internal/semconv: extraction of the LLM fields of a span from its attributes.
pub mod Extract
pub mod Merge
pub mod Explicit
pub mod Nested
pub mod Examples
