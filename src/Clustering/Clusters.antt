-- ===== src/Clustering/Clusters.antt =====
-- `build_clusters` (src/clustering/base.rs): the merges within the limit, the clusters of more than
-- two strikes with their rings, and the areas. An outer `none` is a panic; the hash map from labels
-- to members is an association list.
use mathlib.Core.Option
use bo_srv_rs.Common.{
  ℕ, ◌+◌, Bool, List, [], ◌∷◌, ◌++◌, Option, none, some, map, length, leb, ltb, ◌==◌, ◌>>=◌,
  if◌then◌else◌,
}
use bo_srv_rs.Common.Int.{ℤ, negsuc}
use bo_srv_rs.Common.Sort.{sort}
use bo_srv_rs.Clustering.Geometry.{Ring, Geo}
use bo_srv_rs.Clustering.Shapes.{
  Clustering, ClusterShape, select, members_lt, build_shape, merge_overlapping,
}
use bo_srv_rs.Clustering.Linkage.{Merge, Distances, range, single_linkage}

abbrev pub Labelled : Type 0
Labelled = List (ℕ × List ℕ)

-- The members under a label, and the map without it.
unfoldable pub members_at : ℕ → Labelled → Option (List ℕ)
members_at k [] = none
members_at k ((l, ms) ∷ m) = let rest = members_at k m in if l == k then some ms else rest

unfoldable pub without : ℕ → Labelled → Labelled
without k [] = []
without k ((l, ms) ∷ m) = let rest = without k m in if l == k then m else (l, ms) ∷ rest

abbrev pub singletons : List ℕ → Labelled
singletons = map (λ i. (i, i ∷ []))

-- One merge, with the `debug_assert` on its size.
unfoldable pub apply_merge : {F : Type 0} → ℕ → Merge F → Labelled → Option Labelled
unfolding members_at without
apply_merge label merge m = do
  a ← members_at merge.cluster_a m
  b ← members_at merge.cluster_b m
  let merged = a ++ b
  let m' = (label, merged) ∷ without merge.cluster_b (without merge.cluster_a m)
  if length merged == merge.size then some m' else none

-- The loop over the merges, up to the first one beyond the limit.
unfoldable pub apply_merges :
    {F : Type 0} → (F → Bool) → ℕ → List (Merge F) → Labelled → Option Labelled
unfolding apply_merge
apply_merges beyond label [] m = some m
apply_merges beyond label (merge ∷ merges) m =
    let next = apply_merge label merge m >>= λ m'. apply_merges beyond (label + 1) merges m' in
    if beyond merge.distance then some m else next

-- The members of the labels from `event_count` on, ordered by the smallest one.
unfoldable pub clustered_events : ℕ → Labelled → List (List ℕ)
clustered_events event_count [] = []
clustered_events event_count ((l, ms) ∷ m) =
    let rest = clustered_events event_count m in if leb event_count l then ms ∷ rest else rest

-- The clusters that are emitted, with the values of the columns that do not come from the shape.
pub record StrikeCluster (T F : Type 0) : Type 0 where
  pub id : ℤ
  pub timestamp : T
  pub interval_seconds : ℤ
  pub shape : Option (Ring F)
  pub strike_count : ℕ
  pub area : Option F

abbrev pub emit : {T F : Type 0} → (Ring F → Option F) → T → ℤ → ClusterShape F → StrikeCluster T F
emit polygon_area_km2 timestamp interval_seconds c = record {
  id = negsuc 0;
  timestamp = timestamp;
  interval_seconds = interval_seconds;
  shape = some c.shape;
  strike_count = length c.members;
  area = polygon_area_km2 c.shape;
}

module _ {F P : Type 0} (geo : Geo F P) (d : Distances (F × F) F) (clustering : Clustering F) where
  -- The ring of a cluster of more than two strikes, where there is one.
  unfoldable pub shape_cluster : List (F × F) → List ℕ → Option (Option (ClusterShape F))
  unfolding build_shape select
  shape_cluster points members = if leb (length members) 2 then some none else do
    cluster_points ← select points members
    some (
        Option.map (λ shape. record { members = members; shape = shape })
          (build_shape geo clustering cluster_points))

  abbrev pub push_shape : Option (ClusterShape F) → List (ClusterShape F) → List (ClusterShape F)
  push_shape none cs = cs
  push_shape (some c) cs = c ∷ cs

  unfoldable pub shape_clusters : List (F × F) → List (List ℕ) → Option (List (ClusterShape F))
  unfolding shape_cluster
  shape_clusters points [] = some []
  shape_clusters points (members ∷ clusters) = do
    shaped ← shape_cluster points members
    rest ← shape_clusters points clusters
    some (push_shape shaped rest)

  -- The clusters of the points, before the rings.
  unfoldable pub cluster_events : List (F × F) → Option (List (List ℕ))
  unfolding single_linkage apply_merges clustered_events
  cluster_events points = do
    merges ← single_linkage d points
    let n = length points
    m ←
        apply_merges (λ distance. d.is_gt distance clustering.distance_limit) n merges
          (singletons (range 0 n))
    some (sort members_lt (clustered_events n m))

  unfoldable pub build_clusters :
      {T : Type 0}
      → (polygon_area_km2 : Ring F → Option F) → List (F × F)
      → (timestamp : T) (interval_seconds : ℤ) → Option (List (StrikeCluster T F))
  unfolding cluster_events shape_clusters merge_overlapping
  build_clusters polygon_area_km2 points timestamp interval_seconds =
      if ltb (length points) 3 then some [] else do
        clustered ← cluster_events points
        shaped ← shape_clusters points clustered
        merged ← merge_overlapping geo clustering shaped points
        some (map (emit polygon_area_km2 timestamp interval_seconds) merged)
