-- ===== src/Stats.antt =====
-- The statistics of the usage log: src/stats/parse.rs, src/stats/aggregate.rs and
-- src/stats/day.rs.
pub mod Row
pub mod Content
pub mod Counter
pub mod Aggregate
mod Tests
