-- ===== src/Clustering/Events.antt =====
-- The clusters of the events of an interval (src/clustering/base.rs), before they are given rings.
use mathlib.Core.List.Perm
use mathlib.Core.List.{Perm, Memᴰ, perm_append_comm}
use bo_srv_rs.Common.{
  ℕ, zero, suc, ◌+◌, ◌*◌, ◌<◌, Bool, false, List, [], ◌∷◌, ◌++◌, some, ◌≡◌, ◌≢◌, ◌⊎◌, refl, sym, ap,
  subst, ◌∙◌, arith, length, replicate, ltb, leb, inl, inr, Bool-cases, append_assoc, All, All-imp,
}
use bo_srv_rs.Common.Sort.{sort, sort-perm, All-sort, sort-IsSorted, IsSorted}
use bo_srv_rs.Clustering.Geometry.{Geo}
use bo_srv_rs.Clustering.Shapes.{Clustering, members_lt}
use bo_srv_rs.Clustering.Forest.{entry}
use bo_srv_rs.Clustering.Linkage.{Merge, Distances, Edge, edge_lt, range, unlinked, single_linkage}
use bo_srv_rs.Clustering.Clusters.{
  Labelled, members_at, singletons, apply_merges, clustered_events, cluster_events,
}
use bo_srv_rs.Clustering.Labels.{all_members, IsChained, here, members_at_head, members_at_tail}
use bo_srv_rs.Clustering.Classes.{IsLinked}
use bo_srv_rs.Clustering.Joining.{AllChained}
use bo_srv_rs.Clustering.Members.{all_of, all_of-perm, members_lt-IsWeakOrder}
use bo_srv_rs.Clustering.Steps.{IsNear, join_edges-apply_merges}
use bo_srv_rs.Clustering.Tree.{at, IsEdge, add_vertices-IsEdge}

length-range : (i n : ℕ) → length (range i n) ≡ n
length-range i zero = refl
length-range i (suc n) = ap suc (length-range (suc i) n)

entry-range : (i n k : ℕ) → k < n → entry (range i n) k ≡ i + k
entry-range i zero k h = absurd (omega (arith, h))
entry-range i (suc n) zero h = omega arith
entry-range i (suc n) (suc k) h = omega (arith, entry-range (suc i) n k (omega (arith, h)))

length-replicate : (n a : ℕ) → length (replicate n a) ≡ n
length-replicate zero a = refl
length-replicate (suc n) a = ap suc (length-replicate n a)

entry-replicate : (n a k : ℕ) → k < n → entry (replicate n a) k ≡ a
entry-replicate zero a k h = absurd (omega (arith, h))
entry-replicate (suc n) a zero h = refl
entry-replicate (suc n) a (suc k) h = entry-replicate n a k (omega (arith, h))

members_at-singletons :
    (i n k q : ℕ) → k < n → q ≡ i + k → members_at q (singletons (range i n)) ≡ some (q ∷ [])
members_at-singletons i zero k q h e = absurd (omega (arith, h))
members_at-singletons i (suc n) zero q h e =
    let first : i ≡ q = omega (arith, e) in
    subst (λ x. members_at x (singletons (range i (suc n))) ≡ some (x ∷ [])) first
      (members_at_head i (i ∷ []) (singletons (range (suc i) n)))
members_at-singletons i (suc n) (suc k) q h e =
    let later : q ≢ i = λ f. absurd (omega (arith, e, f)) in
    members_at_tail q i (i ∷ []) (singletons (range (suc i) n)) later
    ∙ members_at-singletons (suc i) n k q (omega (arith, h)) (omega (arith, e))

all_members-singletons : (xs : List ℕ) → all_members (singletons xs) ≡ xs
all_members-singletons [] = refl
all_members-singletons (x ∷ xs) = ap (◌∷◌ x) (all_members-singletons xs)

singletons-AllChained : (Near : ℕ → ℕ → Type 0) (xs : List ℕ) → AllChained Near (singletons xs)
singletons-AllChained Near [] = tt
singletons-AllChained Near (x ∷ xs) = (((here, tt), tt), singletons-AllChained Near xs)

unlinked-IsLinked :
    {F : Type 0} (n : ℕ) → IsLinked {F = F} n (λ k. k) (unlinked n) (singletons (range 0 n))
unlinked-IsLinked n =
    let own : (k : ℕ) → k < n → entry (range 0 (2 * n)) k ≡ k =
      λ k lt. omega (arith, entry-range 0 (2 * n) k (omega (arith, lt)), lt) in
    record {
      forest = record {
        enough = omega (arith, length-range 0 (2 * n));
        link_le = λ k lt. omega (arith, own k lt);
        link_root = λ k lt. own k lt;
        root_link = λ k lt e. refl;
        root_fixed = λ k lt. own k lt;
        root_le = λ k lt. omega arith;
      };
      enough_ids = omega (arith, length-range 0 (2 * n));
      enough_sizes = omega (arith, length-replicate (2 * n) 1);
      id_lt = λ k lt. omega (arith, own k lt, lt);
      id_injective = λ k l k_lt l_lt e. omega (arith, own k k_lt, own l l_lt, e);
      classes = λ k lt. (
        k ∷ [],
        ap (λ i. members_at i (singletons (range 0 n))) (own k lt)
            ∙ members_at-singletons 0 n k k lt (omega arith),
        (sym (entry-replicate (2 * n) 1 k (omega (arith, lt))), λ l l_lt e. Memᴰ.head e),
      );
    }

-- What is not clustered, and what is.
clustered_events-all :
    (n : ℕ) (m : Labelled)
    → (rest : List ℕ) × Perm (all_of (clustered_events n m) ++ rest) (all_members m)
unfolding clustered_events
clustered_events-all n [] = ([], Perm.refl [])
clustered_events-all n ((l, ms) ∷ m) =
    let (rest, p) = clustered_events-all n m in
    elim (Bool-cases (leb n l)) [
      | inl e ↦ (
        rest,
        rw (e, clustered_events, append_assoc ms (all_of (clustered_events n m)) rest)
            (Perm.append_left ms p),
      )
      | inr e ↦ (
        ms ++ rest,
        rw (e, clustered_events)
            (rw (sym (append_assoc (all_of (clustered_events n m)) ms rest)) (
              Perm.trans
                (Perm.append_right rest (perm_append_comm (all_of (clustered_events n m)) ms))
                (rw (append_assoc ms (all_of (clustered_events n m)) rest)
                  (Perm.append_left ms p)))),
      )
    ]

clustered_events-IsChained :
    (Near : ℕ → ℕ → Type 0) (n : ℕ) (m : Labelled)
    → AllChained Near m
    → All (IsChained Near) (clustered_events n m)
unfolding clustered_events
clustered_events-IsChained Near n [] h = tt
clustered_events-IsChained Near n ((l, ms) ∷ m) h = elim (Bool-cases (leb n l)) [
  | inl e ↦ rw (e, clustered_events) (h.0, clustered_events-IsChained Near n m h.1)
  | inr e ↦ rw (e, clustered_events) (clustered_events-IsChained Near n m h.1)
]

module _ {F P : Type 0} (geo : Geo F P) (d : Distances (F × F) F) (clustering : Clustering F) where
  -- Two events whose distance, measured one way or the other, is not beyond the limit.
  abbrev pub IsNearby : List (F × F) → ℕ → ℕ → Type 0
  IsNearby points i j =
      let dist = λ (k l : ℕ).
        d.is_gt
          (d.between (at d (geo.zero, geo.zero) points k) (at d (geo.zero, geo.zero) points l))
          clustering.distance_limit in
      (i < length points) × (j < length points) × ((dist i j ≡ false) ⊎ (dist j i ≡ false))

  abbrev beyond : F → Bool
  beyond distance = d.is_gt distance clustering.distance_limit

  edge-IsNear :
      (points : List (F × F)) (e : Edge F)
      → IsEdge d (geo.zero, geo.zero) points e
      → IsNear (IsNearby points) (length points) beyond e
  edge-IsNear points (e, i, j) (i_lt, j_lt, inl measured) = (
    i_lt,
    j_lt,
    λ within.
        let near = ap beyond (sym measured) ∙ within in
        ((i_lt, j_lt, inl near), (j_lt, i_lt, inr near)),
  )
  edge-IsNear points (e, i, j) (i_lt, j_lt, inr measured) = (
    i_lt,
    j_lt,
    λ within.
        let near = ap beyond (sym measured) ∙ within in
        ((i_lt, j_lt, inr near), (j_lt, i_lt, inl near)),
  )

  no_merges : (n : ℕ) (m : Labelled) → apply_merges beyond n [] m ≡ some m
  unfolding apply_merges
  no_merges n m = refl

  -- The clusters that the map of the labels gives.
  clusters_of-map :
      (points : List (F × F)) (merges : List (Merge F)) (m : Labelled)
      → single_linkage d points ≡ some merges
      → apply_merges beyond (length points) merges (singletons (range 0 (length points))) ≡ some m
      → Perm (all_members m) (all_members (singletons (range 0 (length points))))
      → AllChained (IsNearby points) m
      → (clusters : List (List ℕ)) × (rest : List ℕ) × (cluster_events geo d clustering points
          ≡ some clusters)
        × Perm (all_of clusters ++ rest) (range 0 (length points))
        × All (IsChained (IsNearby points)) clusters
        × IsSorted members_lt clusters
  unfolding cluster_events
  clusters_of-map points merges m linked applied perm chained =
      let found = clustered_events (length points) m in
      let (rest, p) = clustered_events-all (length points) m in
      let sorted = all_of-perm (sort members_lt found) found (sort-perm members_lt found) in
      (
        sort members_lt found,
        rest,
        rw (linked, cluster_events, applied) refl,
        subst (λ xs. Perm (all_of (sort members_lt found) ++ rest) xs)
            (all_members-singletons (range 0 (length points)))
            (Perm.trans (Perm.append_right rest sorted) (Perm.trans p perm)),
        All-sort members_lt (IsChained (IsNearby points)) found
            (clustered_events-IsChained (IsNearby points) (length points) m chained),
        sort-IsSorted members_lt members_lt-IsWeakOrder found,
      )

  -- The clustering of any events ends without a panic. An event is in one cluster at most and once,
  -- the clusters are ordered by their smallest events, and between any two events of a cluster
  -- there is a chain of events, where the distance of each to the next, measured one way or the
  -- other, is not beyond the limit.
  pub cluster_events-IsChained :
      (points : List (F × F))
      → (clusters : List (List ℕ)) × (rest : List ℕ) × (cluster_events geo d clustering points
          ≡ some clusters)
        × Perm (all_of clusters ++ rest) (range 0 (length points))
        × All (IsChained (IsNearby points)) clusters
        × IsSorted members_lt clusters
  unfolding cluster_events single_linkage
  cluster_events-IsChained points =
      let n = length points in
      elim (Bool-cases (ltb n 2)) [
        | inl few ↦
            clusters_of-map points [] (singletons (range 0 n)) (rw (few, single_linkage) refl)
              (no_merges n (singletons (range 0 n))) (Perm.refl _)
              (singletons-AllChained (IsNearby points) (range 0 n))
        | inr enough ↦
            let (tree, grown, edges) = add_vertices-IsEdge d (geo.zero, geo.zero) points in
            let (s, merges, m, joined_, merged, applied, perm, chained) =
              join_edges-apply_merges (IsNearby points) n beyond (sort (edge_lt d) tree.1)
                (unlinked n) (singletons (range 0 n)) (λ k. k) (unlinked-IsLinked n)
                (All-sort (edge_lt d) (IsNear (IsNearby points) n beyond) tree.1 (
                  All-imp (IsEdge d (geo.zero, geo.zero) points) (IsNear (IsNearby points) n beyond)
                    (edge-IsNear points) tree.1 edges)) in
            clusters_of-map points merges m
              (rw (enough, single_linkage, grown, joined_) (ap some merged)) applied perm
              (chained (singletons-AllChained (IsNearby points) (range 0 n)))
      ]
