-- ===== src/Api.antt =====
-- internal/api: the read-side query API.
pub mod Cursor
pub mod Page
pub mod Queries
pub mod Repeats
pub mod Traces
pub mod TraceSpans
pub mod Handlers
pub mod Overlap
pub mod FindProject
mod Examples
