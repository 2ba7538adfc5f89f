-- ===== src/Clustering/Steps.antt =====
-- The loop over the edges of `single_linkage` next to the loop over the merges in `build_clusters`
-- (src/clustering/base.rs).
use mathlib.Core.List.Perm
use mathlib.Core.List.{Perm}
use bo_srv_rs.Common.{
  ℕ, ◌+◌, ◌<◌, Bool, false, List, [], ◌∷◌, ◌++◌, some, ◌≡◌, ◌≢◌, ◌⊎◌, refl, sym, ap, subst, ◌∙◌,
  arith, ltb, ◌==◌, inl, inr, Bool-cases, ltb→lt, append_assoc, append_nil, All,
}
use bo_srv_rs.Clustering.Shapes.{set_at}
use bo_srv_rs.Clustering.Forest.{entry, get_elem?-entry, IsForest, find-IsForest}
use bo_srv_rs.Clustering.Linkage.{
  Merge, Linkage, Edge, ordered, find, join_roots, join_edge, join_edges,
}
use bo_srv_rs.Clustering.Clusters.{Labelled, apply_merge, apply_merges}
use bo_srv_rs.Clustering.Labels.{all_members}
use bo_srv_rs.Clustering.Classes.{IsLinked}
use bo_srv_rs.Clustering.Joined.{joined}
use bo_srv_rs.Clustering.Joining.{AllChained, merge-Merged}

module _ {F : Type 0} (Near : ℕ → ℕ → Type 0) (n : ℕ) where
  -- An edge within a class, and one between two.
  data Step (s : Linkage F) (m : Labelled) (e : Edge F) : Type 0 where
    kept :
        (s' : Linkage F) (root_of : ℕ → ℕ)
        → join_edge e s ≡ some s'
        → s'.merges ≡ s.merges
        → s'.next_label ≡ s.next_label
        → IsLinked n root_of s' m
        → Step s m e
    joined_step :
        (s' : Linkage F) (root_of : ℕ → ℕ) (merge : Merge F) (m' : Labelled)
        → join_edge e s ≡ some s'
        → s'.merges ≡ s.merges ++ merge ∷ []
        → s'.next_label ≡ s.next_label + 1
        → merge.distance ≡ e.0
        → apply_merge s.next_label merge m ≡ some m'
        → IsLinked n root_of s' m'
        → Perm (all_members m') (all_members m)
        → (Near e.1 e.2 → Near e.2 e.1 → AllChained Near m → AllChained Near m')
        → Step s m e

  module _ (s : Linkage F) (m : Labelled) (root_of : ℕ → ℕ) (h : IsLinked n root_of s m) (e : F)
      (i j : ℕ) (i_lt : i < n) (j_lt : j < n) where
    -- The merge of two classes in one of the orders.
    merged_roots :
        (links links' : List ℕ) (x y low high : ℕ)
        → find s.union_find i ≡ some (links, root_of i)
        → find links j ≡ some (links', root_of j)
        → IsForest n root_of links'
        → root_of i ≢ root_of j
        → x < n
        → y < n
        → ((x ≡ i) × (y ≡ j)) ⊎ ((x ≡ j) × (y ≡ i))
        → low < high
        → ordered (entry s.cluster_id (root_of i)) (entry s.cluster_id (root_of j))
          ≡ (entry s.cluster_id (root_of x), entry s.cluster_id (root_of y))
        → ordered (root_of i) (root_of j) ≡ (low, high)
        → ((low ≡ root_of x) × (high ≡ root_of y)) ⊎ ((low ≡ root_of y) × (high ≡ root_of x))
        → Step s m (e, i, j)
    unfolding join_edge join_roots
    merged_roots links links' x y low high find_i find_j forest apart x_lt y_lt who less ids roots
          which =
        let size = entry s.size (root_of i) + entry s.size (root_of j) in
        let merge : Merge F = record {
          cluster_a = entry s.cluster_id (root_of x);
          cluster_b = entry s.cluster_id (root_of y);
          distance = e;
          size = size;
        } in
        let sum : size ≡ entry s.size (root_of x) + entry s.size (root_of y) =
          let at = λ (k : ℕ). entry s.size (root_of k) in
          elim who [
            | inl (f, g) ↦ omega (arith, ap at f, ap at g)
            | inr (f, g) ↦ omega (arith, ap at f, ap at g)
          ] in
        let r =
          merge-Merged Near n s m merge links' x y low high root_of h forest x_lt y_lt less which
            refl refl sum in
        let s' : Linkage F = record {
          union_find = set_at high low links';
          cluster_id = set_at low s.next_label s.cluster_id;
          size = set_at low size s.size;
          next_label = s.next_label + 1;
          merges = s.merges ++ merge ∷ [];
        } in
        let differ : (root_of i == root_of j) ≡ false = ground (arith, apart) in
        let low_i : root_of i < n = omega (arith, forest.root_le i i_lt, i_lt) in
        let low_j : root_of j < n = omega (arith, forest.root_le j j_lt, j_lt) in
        let id_i = get_elem?-entry s.cluster_id (root_of i) (omega (arith, low_i, h.enough_ids)) in
        let id_j = get_elem?-entry s.cluster_id (root_of j) (omega (arith, low_j, h.enough_ids)) in
        let size_i = get_elem?-entry s.size (root_of i) (omega (arith, low_i, h.enough_sizes)) in
        let size_j = get_elem?-entry s.size (root_of j) (omega (arith, low_j, h.enough_sizes)) in
        let run : join_edge (e, i, j) s ≡ some s' =
          rw (find_i, join_edge, find_j, differ, join_roots, id_i, id_j, size_i, size_j, ids, roots)
            refl in
        joined_step s' (joined root_of low high) merge r.after run refl refl refl r.applied
          (r.linked _) r.kept
          (λ near back all. elim who [
            | inl (f, g) ↦ r.chained (rw (f, g) near) (rw (f, g) back) all
            | inr (f, g) ↦ r.chained (rw (f, g) back) (rw (f, g) near) all
          ])

    join_edge-Step : Step s m (e, i, j)
    unfolding join_edge
    join_edge-Step =
        let (links, find_i, forest_i, _) = find-IsForest s.union_find i h.forest i_lt in
        let (links', find_j, forest, _) = find-IsForest links j forest_i j_lt in
        let p = root_of i in
        let q = root_of j in
        let id_i = entry s.cluster_id p in
        let id_j = entry s.cluster_id q in
        elim (Bool-cases (p == q)) [
          | inl same ↦
              kept (record s { union_find = links' }) root_of
                (rw (find_i, join_edge, find_j, same) refl) refl refl
                (record {
                  forest = forest;
                  enough_ids = h.enough_ids;
                  enough_sizes = h.enough_sizes;
                  id_lt = h.id_lt;
                  id_injective = h.id_injective;
                  classes = h.classes;
                })
          | inr other ↦
              let apart : p ≢ q = ground (arith, other) in
              elim (Bool-cases (ltb id_i id_j)) [
                | inl f ↦ elim (Bool-cases (ltb p q)) [
                  | inl g ↦
                      merged_roots links links' i j p q find_i find_j forest apart i_lt j_lt
                        (inl (refl, refl)) (ltb→lt p q g) (rw f refl) (rw g refl) (inl (refl, refl))
                  | inr g ↦
                      merged_roots links links' i j q p find_i find_j forest apart i_lt j_lt
                        (inl (refl, refl)) (ground (arith, apart, g)) (rw f refl) (rw g refl)
                        (inr (refl, refl))
                ]
                | inr f ↦ elim (Bool-cases (ltb p q)) [
                  | inl g ↦
                      merged_roots links links' j i p q find_i find_j forest apart j_lt i_lt
                        (inr (refl, refl)) (ltb→lt p q g) (rw f refl) (rw g refl) (inr (refl, refl))
                  | inr g ↦
                      merged_roots links links' j i q p find_i find_j forest apart j_lt i_lt
                        (inr (refl, refl)) (ground (arith, apart, g)) (rw f refl) (rw g refl)
                        (inl (refl, refl))
                ]
              ]
        ]

  -- The edges of points, and the near ones among them.
  abbrev pub IsNear : (F → Bool) → Edge F → Type 0
  IsNear beyond e = (e.1 < n) × (e.2 < n) × (beyond e.0 ≡ false → Near e.1 e.2 × Near e.2 e.1)

  -- The merges of the edges are applied without a panic; they keep the members, and the clusters are
  -- held together by chains.
  pub join_edges-apply_merges :
      (beyond : F → Bool) (edges : List (Edge F)) (s : Linkage F) (m : Labelled) (root_of : ℕ → ℕ)
      → IsLinked n root_of s m
      → All (IsNear beyond) edges
      → (s' : Linkage F) × (new : List (Merge F)) × (m' : Labelled) × (join_edges edges s ≡ some s')
        × (s'.merges ≡ s.merges ++ new)
        × (apply_merges beyond s.next_label new m ≡ some m')
        × Perm (all_members m') (all_members m)
        × (AllChained Near m → AllChained Near m')
  unfolding join_edges apply_merges
  join_edges-apply_merges beyond [] s m root_of h ok =
      (s, [], m, refl, sym (append_nil s.merges), refl, Perm.refl _, λ c. c)
  join_edges-apply_merges beyond ((d, i, j) ∷ edges) s m root_of h ((i_lt, j_lt, near), ok) =
      elim (join_edge-Step s m root_of h d i j i_lt j_lt) [
        | kept s1 root1 run same label linked ↦
            let (s', new, m', run', grown, applied, perm, chained) =
              join_edges-apply_merges beyond edges s1 m root1 linked ok in
            (
              s',
              new,
              m',
              rw (run, join_edges) run',
              grown ∙ ap (λ x. x ++ new) same,
              subst (λ l. apply_merges beyond l new m ≡ some m') label applied,
              perm,
              chained,
            )
        | joined_step s1 root1 merge m1 run pushed label dist applied1 linked perm1 chained1 ↦
            let (s', new, m', run', grown, applied, perm, chained) =
              join_edges-apply_merges beyond edges s1 m1 root1 linked ok in
            let grown' : s'.merges ≡ s.merges ++ merge ∷ new =
              grown ∙ ap (λ x. x ++ new) pushed ∙ append_assoc s.merges (merge ∷ []) new in
            let go = subst (λ l. apply_merges beyond l new m1 ≡ some m') label applied in
            elim (Bool-cases (beyond d)) [
              | inl stop ↦ (
                s',
                merge ∷ new,
                m,
                rw (run, join_edges) run',
                grown',
                rw (apply_merges, dist, stop) refl,
                Perm.refl _,
                λ c. c,
              )
              | inr on ↦ (
                s',
                merge ∷ new,
                m',
                rw (run, join_edges) run',
                grown',
                rw (apply_merges, dist, on, applied1) go,
                Perm.trans perm perm1,
                λ c. chained (chained1 (near on).0 (near on).1 c),
              )
            ]
      ]
