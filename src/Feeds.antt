-- ===== src/Feeds.antt =====
-- src/l2_pipeline/feeds: connections, rate limits and the exchanges' feed clients.
pub mod Connection
pub mod RateLimit
pub mod Stats
pub mod Json
pub mod Envelope
pub mod Truth
pub mod Binance
pub mod Okx
mod Tests
