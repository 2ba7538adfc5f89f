-- ===== src/Stats/Aggregate.antt =====
-- The daily statistics: src/stats/aggregate.rs and src/stats/day.rs.
mod Types
mod Defs
pub mod Totals
pub mod Matrix
pub mod Top
pub mod Labels
pub mod Local
pub use Types.*
unfoldable pub use Defs.*
