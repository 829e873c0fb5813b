-- ===== src/Statistics.antt =====
-- src/domain/statistics.rs and src/domain/statistics/: the trades, and what is computed of them.
pub mod Trade
pub mod History
pub mod Cache
pub mod Queries
pub mod Interval
pub mod Buckets
pub mod Hloc
pub mod Volume
pub mod Ticker
mod Calendar
pub mod Tests
