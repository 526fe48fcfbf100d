-- ===== src/Book.antt =====
-- src/l2_pipeline/book: the order book of one instrument, and what keeps it correct.
pub mod Types
pub mod Levels
pub mod Engine
pub mod Invariant
pub mod Sync
pub mod Outcomes
pub mod Loading
pub mod Depth
pub mod Sorting
pub mod Top
pub mod Tests
