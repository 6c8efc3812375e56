-- ===== src/Collector.antt =====
-- internal/collector: OTLP ingestion.
pub mod Batcher
pub mod Decode
pub mod Handler
pub mod Ingest
