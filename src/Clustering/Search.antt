-- ===== src/Clustering/Search.antt =====
-- The search for two clusters that overlap (src/clustering/base.rs): what it finds is in range, and
-- if it finds nothing no two clusters overlap.
use mathlib.Core.List.{Pairwise}
use bo_srv_rs.Common.{
  ℕ, suc, ◌<◌, false, List, [], ◌∷◌, none, some, ◌≡◌, refl, subst, arith, get_elem?, All, inl, inr,
  Bool-cases, Option-cases,
}
use bo_srv_rs.Clustering.Geometry.{Geo, rings_overlap}
use bo_srv_rs.Clustering.Shapes.{Clustering, ClusterShape, find_second, find_overlapping}
use bo_srv_rs.Clustering.Elements.{All-mem}

module _ {F P : Type 0} (geo : Geo F P) (clustering : Clustering F) where
  -- The search finds a pair that overlaps, or there is none.
  abbrev pub Apart : ClusterShape F → ClusterShape F → Type 0
  Apart c d = rings_overlap geo c.shape d.shape ≡ false

  find_second-some :
      (c : ClusterShape F) (cs : List (ClusterShape F)) (j : ℕ)
      → find_second geo clustering c cs ≡ some j
      → (d : ClusterShape F) × (get_elem? cs j ≡ some d)
  unfolding find_second
  find_second-some c [] j e = cc
  find_second-some c (d ∷ ds) j e = elim (Bool-cases (rings_overlap geo c.shape d.shape)) [
    | inl overlap ↦
        let first : 0 ≡ j = ground (arith, e, overlap) in
        subst (λ k. (x : ClusterShape F) × (get_elem? (d ∷ ds) k ≡ some x)) first (d, refl)
    | inr apart ↦ elim (Option-cases (find_second geo clustering c ds)) [
      | inl none_left ↦ absurd (ground (arith, e, apart, none_left))
      | inr (k, found) ↦
          let next : suc k ≡ j = ground (arith, e, apart, found) in
          subst (λ k. (x : ClusterShape F) × (get_elem? (d ∷ ds) k ≡ some x)) next
            (find_second-some c ds k found)
    ]
  ]

  find_second-none :
      (c : ClusterShape F) (cs : List (ClusterShape F))
      → find_second geo clustering c cs ≡ none
      → All (Apart c) cs
  unfolding find_second
  find_second-none c [] e = tt
  find_second-none c (d ∷ ds) e = elim (Bool-cases (rings_overlap geo c.shape d.shape)) [
    | inl overlap ↦ absurd (ground (arith, e, overlap))
    | inr apart ↦ elim (Option-cases (find_second geo clustering c ds)) [
      | inl none_left ↦ (apart, find_second-none c ds none_left)
      | inr (k, found) ↦ absurd (ground (arith, e, apart, found))
    ]
  ]

  -- Two indices in range, the first one smaller.
  abbrev pub InRange : List (ClusterShape F) → ℕ × ℕ → Type 0
  InRange cs p =
      (p.0 < p.1)
      × (c : ClusterShape F) × (o : ClusterShape F) × (get_elem? cs p.0 ≡ some c)
      × (get_elem? cs p.1 ≡ some o)

  pub find_overlapping-some :
      (cs : List (ClusterShape F)) (i j : ℕ)
      → find_overlapping geo clustering cs ≡ some (i, j)
      → InRange cs (i, j)
  unfolding find_overlapping
  find_overlapping-some [] i j e = cc
  find_overlapping-some (c ∷ cs) i j e = elim (Option-cases (find_second geo clustering c cs)) [
    | inr (k, found) ↦
        let (o, at) = find_second-some c cs k found in
        let here : find_overlapping geo clustering (c ∷ cs) ≡ some (0, suc k) =
          rw (found, find_overlapping) refl in
        let pair : (0, suc k) ≡ (i, j) = cc in
        subst (InRange (c ∷ cs)) pair (omega arith, c, o, refl, at)
    | inl alone ↦ elim (Option-cases (find_overlapping geo clustering cs)) [
      | inl none_left ↦ absurd (ground (arith, e, alone, none_left))
      | inr (p, found) ↦
          let here : find_overlapping geo clustering (c ∷ cs) ≡ some (suc p.0, suc p.1) =
            rw (alone, found, find_overlapping) refl in
          let pair : (suc p.0, suc p.1) ≡ (i, j) = cc in
          let (lt, c', o, at_i, at_j) = find_overlapping-some cs p.0 p.1 found in
          subst (InRange (c ∷ cs)) pair (omega (arith, lt), c', o, at_i, at_j)
    ]
  ]

  pub find_overlapping-none :
      (cs : List (ClusterShape F)) → find_overlapping geo clustering cs ≡ none → Pairwise Apart cs
  unfolding find_overlapping
  find_overlapping-none [] e = Pairwise.nil
  find_overlapping-none (c ∷ cs) e = elim (Option-cases (find_second geo clustering c cs)) [
    | inr (k, found) ↦ absurd (ground (arith, e, found))
    | inl alone ↦ elim (Option-cases (find_overlapping geo clustering cs)) [
      | inl none_left ↦
          Pairwise.cons (λ d m. All-mem (Apart c) (λ d. hlevel) cs (find_second-none c cs alone) m)
            (find_overlapping-none cs none_left)
      | inr (p, found) ↦ absurd (ground (arith, e, alone, found))
    ]
  ]
