-- ===== src/Clustering/Tests.antt =====
-- The clustering of src/clustering/base.rs on a few points.
use mathlib.Core.List.{Perm, Pairwise}
use bo_srv_rs.Common.{ℕ, List, [], ◌∷◌, ◌++◌, map, ◌≡◌, refl, some, none, Option, All, arith}
use bo_srv_rs.Common.Int.{pos}
use bo_srv_rs.Common.Sort.{sort, IsSorted}
use bo_srv_rs.Clustering.Geometry.{Ring, rings_overlap}
use bo_srv_rs.Clustering.Shapes.{
  ClusterShape, members_lt, by_smallest, build_shape, merge_overlapping,
}
use bo_srv_rs.Clustering.Linkage.{single_linkage, range}
use bo_srv_rs.Clustering.Clusters.{StrikeCluster, cluster_events, build_clusters, emit}
use bo_srv_rs.Clustering.Labels.{IsChained}
use bo_srv_rs.Clustering.Members.{members_of, all_of}
use bo_srv_rs.Clustering.Search.{Apart}
use bo_srv_rs.Clustering.Merging.{IsShaped, merge_overlapping-Pairwise}
use bo_srv_rs.Clustering.Events.{IsNearby, cluster_events-IsChained}
use bo_srv_rs.Clustering.Built.{build_clusters-emit, Each, IsEmitted}
use bo_srv_rs.Clustering.Sample.{plane, distances, settings, plane-IsPlanar}

-- Two groups of three with a pair apart from them.
abbrev points : List (ℕ × ℕ)
points = (0, 0) ∷ (0, 20) ∷ (1, 0) ∷ (30, 0) ∷ (2, 0) ∷ (1, 20) ∷ (31, 0) ∷ (2, 20) ∷ []

three_clusters :
    cluster_events plane distances settings points
    ≡ some ((4 ∷ 0 ∷ 2 ∷ []) ∷ (7 ∷ 1 ∷ 5 ∷ []) ∷ (3 ∷ 6 ∷ []) ∷ [])
unfolding cluster_events single_linkage sort
three_clusters = refl

abbrev no_area : Ring ℕ → Option ℕ
no_area _ = none

abbrev end : ℕ
end = 7

one_cluster :
    build_clusters plane distances settings no_area points end (pos 600)
    ≡ some (
        map (emit no_area end (pos 600)) (
          record {
            members = 0 ∷ 1 ∷ 2 ∷ 4 ∷ 5 ∷ 7 ∷ [];
            shape = (2, 0) ∷ (0, 0) ∷ (1, 0) ∷ (2, 0) ∷ (2, 20) ∷ (0, 20) ∷ (1, 20) ∷ (2, 20) ∷ [];
          }
          ∷ []))
unfolding build_clusters cluster_events single_linkage sort rings_overlap
one_cluster = refl

abbrev lower : ClusterShape ℕ
lower = record { members = 0 ∷ 2 ∷ 4 ∷ []; shape = (0, 0) ∷ (1, 0) ∷ (2, 0) ∷ (0, 0) ∷ [] }

abbrev upper : ClusterShape ℕ
upper = record { members = 1 ∷ 5 ∷ 7 ∷ []; shape = (0, 20) ∷ (1, 20) ∷ (2, 20) ∷ (0, 20) ∷ [] }

lower-IsShaped : IsShaped plane settings plane-IsPlanar points lower
unfolding build_shape
lower-IsShaped =
    ((omega arith, (omega arith, (omega arith, tt))), (0, 0) ∷ (1, 0) ∷ (2, 0) ∷ (0, 0) ∷ [], refl)

upper-IsShaped : IsShaped plane settings plane-IsPlanar points upper
unfolding build_shape
upper-IsShaped = (
  (omega arith, (omega arith, (omega arith, tt))),
  (0, 20) ∷ (1, 20) ∷ (2, 20) ∷ (0, 20) ∷ [],
  refl,
)

merge_overlapping-Pairwise_example :
    (ds : List (ClusterShape ℕ)) × (merge_overlapping plane settings (lower ∷ upper ∷ []) points
      ≡ some ds)
    × All (IsShaped plane settings plane-IsPlanar points) ds
    × Perm (members_of ds) (members_of (lower ∷ upper ∷ []))
    × Pairwise (Apart plane settings) ds
    × IsSorted by_smallest ds
merge_overlapping-Pairwise_example =
    merge_overlapping-Pairwise plane settings plane-IsPlanar points (lower ∷ upper ∷ [])
      (lower-IsShaped, (upper-IsShaped, tt))

cluster_events-IsChained_example :
    (clusters : List (List ℕ)) × (rest : List ℕ) × (cluster_events plane distances settings points
      ≡ some clusters)
    × Perm (all_of clusters ++ rest) (range 0 8)
    × All (IsChained (IsNearby plane distances settings points)) clusters
    × IsSorted members_lt clusters
cluster_events-IsChained_example = cluster_events-IsChained plane distances settings points

build_clusters-emit_example :
    (cs : List (ClusterShape ℕ)) × (rest : List ℕ) × (out : List (StrikeCluster ℕ ℕ))
    × (build_clusters plane distances settings no_area points end (pos 600) ≡ some out)
    × Each (IsEmitted no_area end (pos 600)) cs out
    × Perm (members_of cs ++ rest) (range 0 8)
    × Pairwise (Apart plane settings) cs
    × IsSorted by_smallest cs
build_clusters-emit_example =
    build_clusters-emit plane distances settings plane-IsPlanar points no_area end (pos 600)
