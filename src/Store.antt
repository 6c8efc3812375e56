-- ===== src/Store.antt =====
-- internal/store: persistence of spans. `Tables` has the rows of schema.sql, `Session` the
-- statements of a transaction and their failures, `Insert` the code of span_insert.go.
pub mod Int64
pub mod Totals
pub mod Tables
pub mod Session
pub mod Columns
pub mod Insert
pub mod Keeps
pub mod Batch
pub mod Cumulative
pub mod Crediting
pub mod Ancestors
pub mod Forest
pub mod Ensures
pub mod Quiet
pub mod Sound
pub mod Cycle
pub mod StaleCache
pub mod Correct
pub mod Insertion
pub mod Subtree
pub mod Opening
pub mod Examples
