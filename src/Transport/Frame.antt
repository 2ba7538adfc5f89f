-- ===== src/Transport/Frame.antt =====
-- `encode_frame`, `decode_frame` and `read_frame` (src/transport.rs).
mod Defs
pub mod Header
pub mod RoundTrip
pub mod Partial
pub mod Reader
pub mod Encoded
unfoldable pub use Defs.*
