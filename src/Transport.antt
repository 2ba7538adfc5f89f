-- ===== src/Transport.antt =====
-- The framed transport of src/transport.rs: the headers of a frame, its encoding and decoding,
-- and the conversation on a connection. A byte is a number; a stream is the list of the bytes
-- that the peer sends before it closes.
pub mod Headers
pub mod Frame
pub mod Connection
pub mod Conversation
pub mod Fields
mod Tests
