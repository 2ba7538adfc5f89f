-- ===== src/Common/Text.antt =====
-- Text as the list of its code points, with the operations of Rust's `str`, `String` and `i64`
-- that the parts of the model share.
pub mod Decimal
pub mod Fields
pub mod Split
pub mod Trim
pub mod Order
pub mod Case
pub mod Utf8
