-- ===== src/Stats.antt =====
-- internal/stats: counters for each minute and queue lengths.
pub mod Defs
pub mod Load
pub mod Counters
pub mod Report
pub mod Balance
pub mod Forget
mod Tests
