-- ===== src/Query.antt =====
-- The query builder (src/query.rs): the parts of a query, its SQL text with named parameters, and
-- the positional form in which PostgreSQL receives it.
pub mod Params
pub mod Builder
pub mod Statements
pub mod Values
pub mod Tokens
pub mod Positional
pub mod Bound
mod Tests
