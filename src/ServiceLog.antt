-- ===== src/ServiceLog.antt =====
-- The usage log of src/service_log.rs.
pub mod Queue
pub mod Entry
pub mod Row
pub mod Metric
pub mod Writer
pub mod RoundTrip
mod Tests
