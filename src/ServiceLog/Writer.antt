-- ===== src/ServiceLog/Writer.antt =====
-- `ServicelogWriter` (src/service_log.rs): it appends a row to the file of its day. The disk holds
-- the content of the file of each day, and a handle is the day whose file it has opened. What the
-- operating system answers to the calls of one append is an argument, `Answers`.
mod Defs
pub mod Appends
pub mod Runs
mod Tests
unfoldable pub use Defs.*
