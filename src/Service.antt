-- ===== src/Service.antt =====
-- What the service of src/service.rs decides about a request before it queries: who the client
-- is, whether it is allowed, and the limits of the times asked for; and the histogram that it
-- builds from the rows of a query.
pub mod Client
pub mod Access
pub mod Limits
pub mod Histogram
pub mod Keys
pub mod Server
pub mod Params
pub mod Handling
pub mod Grids
pub mod Clusters
pub mod Effects
pub mod Repeats
mod Sample
mod Runs
mod Tests
