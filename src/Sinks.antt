-- ===== src/Sinks.antt =====
-- src/l2_pipeline/sinks: the row queue and the Parquet sink.
pub mod Queue
pub mod Rows
pub mod Disk
pub mod Writer
pub mod Sink
mod Tests
