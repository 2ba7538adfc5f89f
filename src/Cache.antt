-- ===== src/Cache.antt =====
-- The response cache of src/cache.rs: `CacheEntry`, `Inner` and `ObjectCache`, and the layout
-- `ServiceCache`. A time is a whole number of nanoseconds since the epoch; `now as i64` is its
-- number of whole seconds. An `Arc<CacheEntry>` is the number of its `OnceCell` in a store of
-- cells, so that `Arc::ptr_eq` compares numbers and a caller may hold an entry that the map has
-- lost. What runs between two `.await`s is one function: `claim`, `drive` and `retire`.
mod Defs
pub mod Layout
pub mod Keys
pub mod Expiry
pub mod Invariant
pub mod Flight
mod Tests
unfoldable pub use Defs.*
