-- ===== src/Lib.antt =====
-- The back end of a lightning-location service (bo-srv-rs), modelled in part.
--
-- The service answers JSON-RPC requests for grids and clusters of strikes. A response cache
-- stands between the requests and the database; every answered request leaves a row in a daily
-- usage log; a tool reads the log back and reports statistics of the day.
--
-- Common holds what all parts share: numbers and tests, lists, integers and texts. A text is
-- the list of its code points. The numbers are natural; an `i64` is an integer. Where arithmetic
-- on values that a client chooses or a database holds can leave the range of an `i64`, it wraps
-- around as in a release build (`wrap_i64`, in the histogram and the usage log of clusters);
-- elsewhere its bounds are hypotheses where they matter (IsI64). A `u64` counter that counts
-- calls or rows has no bound.
--
-- Cache models src/cache.rs. Cache/Defs holds `CacheEntry`, `Inner` and `ObjectCache`. What
-- runs between two awaits of `ObjectCache::get_result_at` is one function: `claim` is the first
-- locked section, `drive` the `get_or_init` on the shared cell, `retire` the section after a
-- failure; `settle` and `get_result_at` compose them as the code does. An `Arc<CacheEntry>` is
-- an entry with the number of its cell in a store of cells, so that a caller may hold an entry
-- which the map has lost, and `Arc::ptr_eq` compares numbers. tokio's `OnceCell` is the
-- interface record `OnceCell`. Times are whole nanoseconds since the epoch, `f64` seconds in
-- the source. Cache/Flight/Steps has the sections of any number of calls as a step relation, and
-- Cache/Flight/Kept has two calls with any sections between them;
-- Cache/Invariant is the invariant of its states. Cache/Layout is `ServiceCache` with its five
-- selectors.
--
-- Stats models src/stats/parse.rs (Stats/Row: rows, columns and files; Stats/Content: whole
-- files) and src/stats/aggregate.rs with src/stats/day.rs (Stats/Counter: hash maps as
-- association lists; Stats/Aggregate/Types and Stats/Aggregate/Defs: the statistics and the
-- loop of `aggregate`, one function per block of its body). The other files under
-- Stats/Aggregate compare the loop with counts over the rows. A float is a value of any type,
-- with `str::parse::<f64>` as a parameter.
--
-- ServiceLog models src/service_log.rs: the entries and their constructors (ServiceLog/Entry)
-- and `build_row` (ServiceLog/Row), and the tags of a metric (ServiceLog/Metric).
-- ServiceLog/RoundTrip reads a row back with the parser of the statistics. The rendering of the
-- time of day by chrono and `py_format_fixed` of src/round.rs are parameters, with what is
-- asked of them in the records RendersTime and RendersFixed.
--
-- ServiceLog/Writer models `ServicelogWriter`: the disk is the content of the file of each day,
-- and the answers of the operating system to the calls of one append are an argument, so that a
-- theorem holds for all of them. ServiceLog/Writer/Runs has the loop of the consumer in
-- `spawn`.
--
-- Transport models src/transport.rs: the header lines and the `Request` they fill
-- (Transport/Headers), frames with their encoder, decoder and reader (Transport/Frame/Defs),
-- and `handle_connection` (Transport/Connection), with the dispatch of a request as a parameter
-- that threads the state of the service. A stream is what the peer sends until it closes. The
-- socket is assumed to take every response: that a write or a flush of `handle_connection` may
-- fail, which ends the connection, is not modelled.
-- Transport/Conversation puts messages one behind the other.
--
-- Service models what src/service.rs decides about a request before it queries: the client
-- (Service/Client), the access check (Service/Access), the limits of times and the intervals
-- (Service/Limits); and the histogram (Service/Histogram). A message that a client is shown is
-- a constructor with the values that the message quotes.
--
-- The handlers of src/service.rs are in Service/Grids and Service/Clusters: the parameters and
-- their limits (Service/Params), the state of the service (Service/Server: the caches, the
-- sender of the usage log and the forbidden addresses), the text of a cache key (Service/Keys)
-- and the end that all handlers share (Service/Handling). A response is computed by a backend,
-- a parameter, which stands for the queries; the clock is one too. ServiceLog/Queue is the
-- sender's end of the queue of the usage log, with tokio's channel as an interface.
-- ServiceLog/Queue/Accounting is about any number of entries. Service/Effects says what a call
-- does and when (Service/Effects/Reading: the values of a request, Service/Effects/Tables: what
-- each handler decides by), Service/Repeats has two calls one after the other, and Service/Sample is a small
-- service for the tests.
--
-- Json is the interface to serde_json: a value with its view. Json/Sample fills it for the
-- tests.
--
-- Rpc models src/jsonrpc.rs: envelopes, ids, versions and summaries (Rpc/Messages), the table
-- of methods (Rpc/Methods), the call of a handler (Rpc/Invoke) and `process` from the body to
-- the reply (Rpc/Dispatch). `process` may panic in an index out of range, which is `none` here.
-- Rpc/Slots and Rpc/Args are the arguments against a description of them, Rpc/Requests has the
-- rules by which a request is refused or answered, Rpc/Answers and Rpc/Replies are about the
-- replies, and Rpc/Serving puts the dispatcher behind a connection, as
-- src/service.rs does.
--
-- Query models src/query.rs: the builder with `to_sql`, `parameters` and `to_postgres`
-- (Query/Builder) and the two loops over the named parameters of a text (Query/Params). A value
-- of a parameter is of any type. Query/Tokens describes a text by its parameters and the code
-- points between them, Query/Positional the numbers of the placeholders, and Query/Bound puts
-- the text and the values together. Query/Statements holds `strikes_query`, `global_grid_query`
-- and `histogram_query`, with the polygon of an envelope as a parameter; Query/Values is what
-- they send.
--
-- Clustering models src/clustering: the functions on rings (Clustering/Geometry, with the crate
-- `geo` and the comparisons of floats as the interface `Geo`), `ClusterShape` with
-- `build_shape` and `merge_overlapping` (Clustering/Shapes), `single_linkage` with its tree and
-- its union-find (Clustering/Linkage), and `build_clusters` (Clustering/Clusters). The
-- great-circle distance is a parameter. Clustering/Growth and Clustering/Merging are about the
-- clusters that overlap; Clustering/Tree is about the edges, Clustering/Forest about `find`,
-- Clustering/Classes and Clustering/Steps about the vectors of the linkage next to the map of
-- the clusters, and Clustering/Built puts the parts together. What is asked of `geo` is the
-- record IsPlanar.
--
-- Bounds and fuel: `print_ℕ` has one more unit of fuel than the number it prints, which is more
-- than its digits. `handle_connection` has one more unit than the bytes of the stream, and
-- every frame takes at least one byte. The loops over an SQL text have its length, and every
-- round takes at least one code point. `find` follows links to smaller numbers, and has one
-- more unit than the number it starts from. A round of `merge_overlapping` that merges leaves
-- one cluster less, so that the number of clusters is enough. All other loops are recursions on
-- lists.
--
-- Not modelled: the computation of the responses from the database, the queries with geometries
-- and those of clusters, the HTTP server, configuration, import, maps, metrics and the database
-- access; the command-line tools are glue around them.
pub mod Common
pub mod Cache
pub mod Stats
pub mod ServiceLog
pub mod Transport
pub mod Service
pub mod Query
pub mod Json
pub mod Rpc
pub mod Clustering
