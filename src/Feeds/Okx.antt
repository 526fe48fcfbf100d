-- ===== src/Feeds/Okx.antt =====
-- The OKX feed: src/l2_pipeline/feeds/okx.py.
pub mod Parsing
pub mod Client
mod Tests
