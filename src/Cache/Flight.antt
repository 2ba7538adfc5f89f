-- ===== src/Cache/Flight.antt =====
-- Shared computations (src/cache.rs): who gets which entry, what a cell holds over time, and
-- what a success and a failure leave in the map.
mod Steps
mod Sharing
mod Results
mod Kept
pub use Steps.*
pub use Sharing.*
pub use Results.*
pub use Kept.*
