-- ===== src/Cache/Invariant.antt =====
-- The invariant of an `ObjectCache` (src/cache.rs), and that every section keeps it.
mod Inner
mod Parts
mod Sections
pub use Inner.{IsConsistent, WithinSize, IsValid}
pub use Parts.{Shrinks-IsValid, empty-IsValid, valid_entry-lookup}
pub use Sections.*
