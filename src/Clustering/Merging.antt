-- ===== src/Clustering/Merging.antt =====
-- `merge_overlapping` (src/clustering/base.rs): it never panics, it keeps the members, and no two
-- of the clusters that it leaves overlap.
use mathlib.Core.List.Perm
use mathlib.Core.List.{Perm, Pairwise}
use native.Mathlib.Bridge.{le_prop}
use bo_srv_rs.Common.{
  ℕ, zero, suc, ◌≤◌, ◌<◌, List, [], ◌∷◌, ◌++◌, Option, some, map, ◌≡◌, refl, sym, ◌∙◌, arith,
  length, get_elem?, ltb, All, All-append, inl, inr, Option-cases,
}
use bo_srv_rs.Common.Sort.{sort, sort-perm, All-sort, sort-IsSorted, IsSorted}
use bo_srv_rs.Clustering.Geometry.{Ring, Geo, union_rings}
use bo_srv_rs.Clustering.Shapes.{
  Clustering, ClusterShape, remove_at, set_at, by_smallest, build_shape, find_overlapping,
  merged_shape, merge_pair, merge_rounds, merge_overlapping,
}
use bo_srv_rs.Clustering.Elements.{
  get_elem?-remove_at_lt, length-remove_at, length-set_at, All-get_elem?, All-remove_at, All-set_at,
  pick, select-map, All-perm, map-append,
}
use bo_srv_rs.Clustering.Growth.{IsPlanar, rings_overlap_comm, build_shape-grows}
use bo_srv_rs.Clustering.Members.{
  members_of, members_of-perm, members_of-merged, by_smallest-IsWeakOrder,
}
use bo_srv_rs.Clustering.Search.{Apart, InRange, find_overlapping-some, find_overlapping-none}

module _ {F P : Type 0} (geo : Geo F P) (clustering : Clustering F) where
  module _ (planar : IsPlanar geo clustering) (points : List (F × F)) where
    abbrev members_shape : List ℕ → Option (Ring F)
    members_shape members =
        build_shape geo clustering (map (pick (geo.zero, geo.zero) points) members)

    -- The members are indices of points, and there is a ring for the points.
    abbrev pub IsShaped : ClusterShape F → Type 0
    IsShaped c =
        All (λ i. i < length points) c.members
        × (ring : Ring F) × (members_shape c.members ≡ some ring)

    joined-IsShaped :
        (c o : ClusterShape F) (members : List ℕ) (shape : Ring F)
        → IsShaped c
        → IsShaped o
        → Perm members (c.members ++ o.members)
        → IsShaped (record { members = members; shape = shape })
    joined-IsShaped c o members shape (in_c, ring, e) (in_o, _, _) p =
        let at = pick (geo.zero, geo.zero) points in
        let (ring', e') =
          build_shape-grows geo clustering planar (map at c.members) (map at o.members)
            (map at members) ring
            (rw (sym (map-append at c.members o.members)) (Perm.map at (Perm.symm p))) e in
        (
          All-perm (λ i. i < length points) (λ i. le_prop) (Perm.symm p)
              (All-append (λ i. i < length points) c.members o.members in_c in_o),
          ring',
          e',
        )

    merged_shape-some :
        (members : List ℕ) (a b : Ring F)
        → All (λ i. i < length points) members
        → (ring : Ring F) × (members_shape members ≡ some ring)
        → (ring : Ring F) × (merged_shape geo clustering points members a b ≡ some ring)
    unfolding merged_shape
    merged_shape-some members a b inside (ring, e) = elim (Option-cases (union_rings geo a b)) [
      | inr (union, u) ↦ (union, rw (u, merged_shape) refl)
      | inl none_ ↦
          (ring, rw (none_, merged_shape, select-map (geo.zero, geo.zero) points members inside) e)
    ]

    merge_pair-some :
        (cs : List (ClusterShape F)) (i j : ℕ)
        → InRange geo clustering cs (i, j)
        → All IsShaped cs
        → (ds : List (ClusterShape F)) × (merge_pair geo clustering points cs (i, j) ≡ some ds)
          × All IsShaped ds
          × Perm (members_of ds) (members_of cs)
          × (suc (length ds) ≡ length cs)
    unfolding merge_pair
    merge_pair-some cs i j (lt, c, o, at_i, at_j) shaped =
        let rest = remove_at j cs in
        let still : get_elem? rest i ≡ some c = get_elem?-remove_at_lt cs i j lt ∙ at_i in
        let members = sort ltb (c.members ++ o.members) in
        let p = sort-perm ltb (c.members ++ o.members) in
        let both =
          joined-IsShaped c o members [] (All-get_elem? IsShaped cs i at_i shaped)
            (All-get_elem? IsShaped cs j at_j shaped) p in
        let (shape, e) = merged_shape-some members c.shape o.shape both.0 (both.1, both.2) in
        let n : ClusterShape F = record { members = members; shape = shape } in
        (
          set_at i n rest,
          rw (at_j, still, e, merge_pair) refl,
          All-set_at IsShaped rest i n both (All-remove_at IsShaped cs j shaped),
          members_of-merged cs i j n at_j still p,
          omega (arith, length-set_at rest i n, length-remove_at cs j at_j),
        )

    merge_rounds-some :
        (fuel : ℕ) (cs : List (ClusterShape F))
        → length cs ≤ fuel
        → All IsShaped cs
        → (ds : List (ClusterShape F)) × (merge_rounds geo clustering fuel points cs ≡ some ds)
          × All IsShaped ds
          × Perm (members_of ds) (members_of cs)
          × Pairwise (Apart geo clustering) ds
    unfolding merge_rounds
    merge_rounds-some zero [] n shaped = ([], refl, tt, Perm.refl [], Pairwise.nil)
    merge_rounds-some zero (c ∷ cs) n shaped = absurd (omega (arith, n))
    merge_rounds-some (suc fuel) cs n shaped =
        elim (Option-cases (find_overlapping geo clustering cs)) [
          | inl apart ↦ (
            cs,
            rw (apart, merge_rounds) refl,
            shaped,
            Perm.refl _,
            find_overlapping-none geo clustering cs apart,
          )
          | inr ((i, j), found) ↦
              let (ds, e, shaped', p, m) =
                merge_pair-some cs i j (find_overlapping-some geo clustering cs i j found) shaped in
              let (es, e', shaped'', p', apart) =
                merge_rounds-some fuel ds (omega (arith, m, n)) shaped' in
              (es, rw (found, merge_rounds, e) e', shaped'', Perm.trans p' p, apart)
        ]

    -- Clusters whose members are points, with a ring for the points of each, are merged without a
    -- panic, and the rounds end. Every strike that was a member of a cluster is a member of one
    -- cluster still, and of no more clusters than before. No two of the clusters overlap, and they
    -- are ordered by their smallest members.
    pub merge_overlapping-Pairwise :
        (cs : List (ClusterShape F))
        → All IsShaped cs
        → (ds : List (ClusterShape F)) × (merge_overlapping geo clustering cs points ≡ some ds)
          × All IsShaped ds
          × Perm (members_of ds) (members_of cs)
          × Pairwise (Apart geo clustering) ds
          × IsSorted by_smallest ds
    unfolding merge_overlapping
    merge_overlapping-Pairwise cs shaped =
        let (ds, e, shaped', p, apart) = merge_rounds-some (length cs) cs (omega arith) shaped in
        let q = sort-perm by_smallest ds in
        (
          sort by_smallest ds,
          rw (e, merge_overlapping) refl,
          All-sort by_smallest IsShaped ds shaped',
          Perm.trans (members_of-perm (sort by_smallest ds) ds q) p,
          Perm.pairwise (λ c d. hlevel)
              (λ c d h. rings_overlap_comm geo clustering planar d.shape c.shape ∙ h) (Perm.symm q)
              apart,
          sort-IsSorted by_smallest by_smallest-IsWeakOrder ds,
        )
