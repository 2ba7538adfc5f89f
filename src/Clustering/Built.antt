-- ===== src/Clustering/Built.antt =====
-- `build_clusters` (src/clustering/base.rs) as a whole.
use mathlib.Core.List.Perm
use mathlib.Core.List.{Perm, Pairwise, perm_append_comm}
use native.Mathlib.Bridge.{le_prop}
use bo_srv_rs.Common.{
  ℕ, zero, suc, ◌+◌, ◌≤◌, ◌<◌, List, [], ◌∷◌, ◌++◌, Option, none, some, map, ◌≡◌, refl, sym, arith,
  length, ltb, leb, inl, inr, Bool-cases, Option-cases, append_assoc, All, All-imp, ◌⊎◌, length-map,
}
use bo_srv_rs.Common.Int.{ℤ, negsuc}
use bo_srv_rs.Common.Sort.{IsSorted}
use bo_srv_rs.Clustering.Geometry.{Ring, Geo}
use bo_srv_rs.Clustering.Shapes.{Clustering, ClusterShape, by_smallest, build_shape}
use bo_srv_rs.Clustering.Elements.{pick, select-map, All-perm}
use bo_srv_rs.Clustering.Growth.{IsPlanar, build_shape-some_size}
use bo_srv_rs.Clustering.Members.{members_of, all_of}
use bo_srv_rs.Clustering.Search.{Apart}
use bo_srv_rs.Clustering.Merging.{IsShaped, merge_overlapping-Pairwise}
use bo_srv_rs.Clustering.Linkage.{Distances, range}
use bo_srv_rs.Clustering.Clusters.{
  StrikeCluster, emit, shape_cluster, shape_clusters, build_clusters,
}
use bo_srv_rs.Clustering.Events.{cluster_events-IsChained}

range-All : (i n b : ℕ) → i + n ≤ b → All (λ k. k < b) (range i n)
range-All i zero b h = tt
range-All i (suc n) b h = (omega (arith, h), range-All (suc i) n b (omega (arith, h)))

All-front : (P : ℕ → Type 0) (xs ys : List ℕ) → All P (xs ++ ys) → All P xs
All-front P [] ys h = tt
All-front P (x ∷ xs) ys h = (h.0, All-front P xs ys h.1)

All-back : (P : ℕ → Type 0) (xs ys : List ℕ) → All P (xs ++ ys) → All P ys
All-back P [] ys h = h
All-back P (x ∷ xs) ys h = All-back P xs ys h.1

-- A relation between the elements of two lists, place by place.
abbrev pub Each : {A B : Type 0} → (A → B → Type 0) → List A → List B → Type 0
Each R [] [] = Unit
Each R [] (b ∷ bs) = ⊥
Each R (a ∷ as') [] = ⊥
Each R (a ∷ as') (b ∷ bs) = R a b × Each R as' bs

module _ {T F : Type 0} (polygon_area_km2 : Ring F → Option F) (timestamp : T)
    (interval_seconds : ℤ) where
  -- What is emitted for a cluster.
  pub record IsEmitted (c : ClusterShape F) (o : StrikeCluster T F) : Type 0 where
    pub no_id : o.id ≡ negsuc 0
    pub at : o.timestamp ≡ timestamp
    pub lasts : o.interval_seconds ≡ interval_seconds
    pub ring : o.shape ≡ some c.shape
    pub counts : o.strike_count ≡ length c.members
    pub covers : o.area ≡ polygon_area_km2 c.shape
    pub at_least : 3 ≤ o.strike_count

  emit-IsEmitted :
      (cs : List (ClusterShape F))
      → All (λ c. 3 ≤ length c.members) cs
      → Each IsEmitted cs (map (emit polygon_area_km2 timestamp interval_seconds) cs)
  emit-IsEmitted [] h = tt
  emit-IsEmitted (c ∷ cs) h = (
    (record {
      no_id = refl;
      at = refl;
      lasts = refl;
      ring = refl;
      counts = refl;
      covers = refl;
      at_least = h.0;
    }),
    emit-IsEmitted cs h.1,
  )

module _ {F P : Type 0} (geo : Geo F P) (d : Distances (F × F) F) (clustering : Clustering F)
    (planar : IsPlanar geo clustering) (points : List (F × F)) where
  -- What a list of members becomes: a cluster with its ring, or nothing.
  shape_cluster-IsShaped :
      (members : List ℕ)
      → All (λ i. i < length points) members
      → (shape_cluster geo d clustering points members ≡ some none)
        ⊎ ((c : ClusterShape F) × (shape_cluster geo d clustering points members ≡ some (some c))
            × (c.members ≡ members)
            × IsShaped geo clustering planar points c)
  unfolding shape_cluster
  shape_cluster-IsShaped members inside = elim (Bool-cases (leb (length members) 2)) [
    | inl few ↦ inl (rw (few, shape_cluster) refl)
    | inr enough ↦
        let at = pick (geo.zero, geo.zero) points in
        let chosen = select-map (geo.zero, geo.zero) points members inside in
        elim (Option-cases (build_shape geo clustering (map at members))) [
          | inl flat ↦ inl (rw (enough, shape_cluster, chosen, flat) refl)
          | inr (ring, e) ↦ inr (
            (record { members = members; shape = ring }),
            rw (enough, shape_cluster, chosen, e) refl,
            refl,
            (inside, ring, e),
          )
        ]
  ]

  shape_clusters-IsShaped :
      (clusters : List (List ℕ))
      → All (λ i. i < length points) (all_of clusters)
      → (cs : List (ClusterShape F)) × (rest : List ℕ) × (shape_clusters geo d clustering points
            clusters
          ≡ some cs)
        × All (IsShaped geo clustering planar points) cs
        × Perm (members_of cs ++ rest) (all_of clusters)
  unfolding shape_clusters
  shape_clusters-IsShaped [] inside = ([], [], refl, tt, Perm.refl [])
  shape_clusters-IsShaped (members ∷ clusters) inside =
      let (cs, rest, e, shaped, p) =
        shape_clusters-IsShaped clusters
          (All-back (λ i. i < length points) members (all_of clusters) inside) in
      elim (shape_cluster-IsShaped members
        (All-front (λ i. i < length points) members (all_of clusters) inside)) [
          | inl none_ ↦ (
            cs,
            members ++ rest,
            rw (none_, shape_clusters, e) refl,
            shaped,
            rw (sym (append_assoc (members_of cs) members rest)) (
                Perm.trans (Perm.append_right rest (perm_append_comm (members_of cs) members))
                  (rw (append_assoc members (members_of cs) rest) (Perm.append_left members p))),
          )
          | inr (c, f, same, ok) ↦ (
            c ∷ cs,
            rest,
            rw (f, shape_clusters, e) refl,
            (ok, shaped),
            rw (append_assoc c.members (members_of cs) rest, same) (Perm.append_left members p),
          )
        ]

  IsShaped-length :
      (c : ClusterShape F) → IsShaped geo clustering planar points c → 3 ≤ length c.members
  IsShaped-length c (inside, ring, e) = omega (
    arith,
    (build_shape-some_size geo clustering _ ring e).0,
    length-map (pick (geo.zero, geo.zero) points) c.members,
  )

  -- For any points and the documented behaviour of the geometry, `build_clusters` never panics. What
  -- it emits is, in order, one record for each of a list of clusters: no strike is in two clusters or
  -- twice in one, no two of the areas overlap, and the clusters are ordered by their smallest
  -- strikes. Each record has the id -1, the time and the length of the interval, the ring of its
  -- cluster and its area, and the number of the cluster's strikes, which is three at least.
  pub build_clusters-emit :
      {T : Type 0} (polygon_area_km2 : Ring F → Option F) (timestamp : T) (interval_seconds : ℤ)
      → (cs : List (ClusterShape F)) × (rest : List ℕ) × (out : List (StrikeCluster T F))
        × (build_clusters geo d clustering polygon_area_km2 points timestamp interval_seconds
            ≡ some out)
        × Each (IsEmitted polygon_area_km2 timestamp interval_seconds) cs out
        × Perm (members_of cs ++ rest) (range 0 (length points))
        × Pairwise (Apart geo clustering) cs
        × IsSorted by_smallest cs
  unfolding build_clusters
  build_clusters-emit polygon_area_km2 timestamp interval_seconds =
      elim (Bool-cases (ltb (length points) 3)) [
        | inl few ↦ (
          [],
          range 0 (length points),
          [],
          rw (few, build_clusters) refl,
          tt,
          Perm.refl _,
          Pairwise.nil,
          tt,
        )
        | inr enough ↦
            let (clusters, rest, e, p, _, _) = cluster_events-IsChained geo d clustering points in
            let inside =
              All-front (λ i. i < length points) (all_of clusters) rest
                (All-perm (λ i. i < length points) (λ i. le_prop) (Perm.symm p)
                  (range-All 0 (length points) (length points) (omega arith))) in
            let (shaped, rest', f, ok, q) = shape_clusters-IsShaped clusters inside in
            let (merged, g, ok', r, apart, sorted) =
              merge_overlapping-Pairwise geo clustering planar points shaped ok in
            (
              merged,
              rest' ++ rest,
              map (emit polygon_area_km2 timestamp interval_seconds) merged,
              rw (enough, build_clusters, e, f, g) refl,
              emit-IsEmitted polygon_area_km2 timestamp interval_seconds merged (
                  All-imp (IsShaped geo clustering planar points) (λ c. 3 ≤ length c.members)
                    IsShaped-length merged ok'),
              Perm.trans (Perm.append_right (rest' ++ rest) r) (
                  rw (sym (append_assoc (members_of shaped) rest' rest))
                    (Perm.trans (Perm.append_right rest q) p)),
              apart,
              sorted,
            )
      ]
