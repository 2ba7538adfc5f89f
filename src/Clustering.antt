-- ===== src/Clustering.antt =====
-- The clustering of strikes (src/clustering): the ring of a cluster, and the clusters that overlap.
pub mod Geometry
pub mod Shapes
pub mod Elements
pub mod Growth
pub mod Members
pub mod Search
pub mod Merging
pub mod Linkage
pub mod Clusters
pub mod Forest
pub mod Nearest
pub mod Tree
pub mod Labels
pub mod Joined
pub mod Classes
pub mod Joining
pub mod Steps
pub mod Events
pub mod Built
mod Sample
mod Tests
