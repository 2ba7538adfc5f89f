-- ===== src/Clustering/Shapes.antt =====
-- The clusters with their rings (`ClusterShape`) and the merging of those that overlap
-- (src/clustering/base.rs). An outer `none` is a panic.
use bo_srv_rs.Common.{
  ℕ, zero, suc, Bool, true, false, List, [], ◌∷◌, ◌++◌, Option, none, some, length, get_elem?, ltb,
  ◌>>=◌, if◌then◌else◌,
}
use bo_srv_rs.Common.Int.{ℤ}
use bo_srv_rs.Common.Sort.{sort}
use bo_srv_rs.Clustering.Geometry.{
  Ring, Geo, is_empty, convex_hull_ring, buffer_ring, simplify_ring, rings_overlap, union_rings,
}

pub record Clustering (F : Type 0) : Type 0 where
  pub distance_limit : F
  pub coordinate_accuracy : F
  pub buffer_size : F
  pub coordinate_precision : ℤ

pub record ClusterShape (F : Type 0) : Type 0 where
  pub members : List ℕ
  pub shape : Ring F

-- `Vec::remove`, and the assignment to an element.
abbrev pub remove_at {ℓ} : {A : Type ℓ} → ℕ → List A → List A
remove_at i [] = []
remove_at zero (x ∷ xs) = xs
remove_at (suc i) (x ∷ xs) = x ∷ remove_at i xs

abbrev pub set_at {ℓ} : {A : Type ℓ} → ℕ → A → List A → List A
set_at i a [] = []
set_at zero a (x ∷ xs) = a ∷ xs
set_at (suc i) a (x ∷ xs) = x ∷ set_at i a xs

-- The values at the indices.
unfoldable pub select {ℓ} : {A : Type ℓ} → List A → List ℕ → Option (List A)
select points [] = some []
select points (i ∷ is) = do p ← get_elem? points i; ps ← select points is; some (p ∷ ps)

-- The minimum of the members, and the order of `Option<usize>`.
abbrev pub smallest : List ℕ → Option ℕ
smallest [] = none
smallest (n ∷ ns) = elim (smallest ns) [ none ↦ some n | some m ↦ some (if ltb m n then m else n) ]

abbrev pub key_lt : Option ℕ → Option ℕ → Bool
key_lt none none = false
key_lt none (some n) = true
key_lt (some m) none = false
key_lt (some m) (some n) = ltb m n

abbrev pub members_lt : List ℕ → List ℕ → Bool
members_lt a b = key_lt (smallest a) (smallest b)

-- `sort_by_key` by the smallest member.
abbrev pub by_smallest : {F : Type 0} → ClusterShape F → ClusterShape F → Bool
by_smallest c d = members_lt c.members d.members

module _ {F P : Type 0} (geo : Geo F P) (clustering : Clustering F) where
  unfoldable pub build_shape : List (F × F) → Option (Ring F)
  unfolding convex_hull_ring buffer_ring simplify_ring
  build_shape points = do
    hull ← convex_hull_ring geo points clustering.coordinate_precision
    let buffered = buffer_ring geo hull clustering.buffer_size
    let simplified = simplify_ring geo buffered clustering.coordinate_accuracy
    if is_empty simplified then none else some simplified

  -- The search for the first pair that overlaps: the second index for a fixed first cluster, then
  -- both.
  unfoldable pub find_second : ClusterShape F → List (ClusterShape F) → Option ℕ
  find_second c [] = none
  find_second c (d ∷ ds) =
      let rest = find_second c ds in
      if rings_overlap geo c.shape d.shape then some 0 else rest >>= λ j. some (suc j)

  unfoldable pub find_overlapping : List (ClusterShape F) → Option (ℕ × ℕ)
  unfolding find_second
  find_overlapping [] = none
  find_overlapping (c ∷ cs) =
      let rest = find_overlapping cs in
      elim (find_second c cs) [
        | some j ↦ some (0, suc j)
        | none ↦ rest >>= λ p. some (suc p.0, suc p.1)
      ]

  -- The union of two rings, or the ring of all the points when that is no single ring.
  unfoldable pub merged_shape : List (F × F) → List ℕ → Ring F → Ring F → Option (Ring F)
  unfolding union_rings build_shape
  merged_shape points members a b = elim (union_rings geo a b) [
    | some ring ↦ some ring
    | none ↦ select points members >>= build_shape
  ]

  -- One round of the loop, for the pair that was found.
  unfoldable pub merge_pair :
      List (F × F) → List (ClusterShape F) → ℕ × ℕ → Option (List (ClusterShape F))
  unfolding merged_shape
  merge_pair points clusters (i, j) = do
    other ← get_elem? clusters j
    let rest = remove_at j clusters
    cluster ← get_elem? rest i
    let members = sort ltb (cluster.members ++ other.members)
    shape ← merged_shape points members cluster.shape other.shape
    some (set_at i (record { members = members; shape = shape }) rest)

  -- The loop; every round but the last has one cluster less, so that their number is enough fuel.
  unfoldable pub merge_rounds :
      ℕ → List (F × F) → List (ClusterShape F) → Option (List (ClusterShape F))
  unfolding merge_pair find_overlapping
  merge_rounds zero points clusters = some clusters
  merge_rounds (suc fuel) points clusters = elim (find_overlapping clusters) [
    | none ↦ some clusters
    | some pair ↦ merge_pair points clusters pair >>= λ cs. merge_rounds fuel points cs
  ]

  unfoldable pub merge_overlapping :
      List (ClusterShape F) → List (F × F) → Option (List (ClusterShape F))
  unfolding merge_rounds
  merge_overlapping clusters points = do
    merged ← merge_rounds (length clusters) points clusters
    some (sort by_smallest merged)
