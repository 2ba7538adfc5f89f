-- ===== src/ServiceLog/RoundTrip.antt =====
-- What the statistics (src/stats/parse.rs) read back from a row of the log (src/service_log.rs).
mod Cells
pub mod Columns
pub mod Whole
