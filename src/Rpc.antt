-- ===== src/Rpc.antt =====
-- JSON-RPC messages: `process` and what it calls (src/jsonrpc.rs).
pub mod Messages
pub mod Methods
pub mod Slots
pub mod Args
pub mod Invoke
pub mod Dispatch
pub mod Requests
pub mod Answers
pub mod Replies
pub mod Serving
mod Tests
