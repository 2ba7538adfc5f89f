-- ===== src/Clustering/Geometry.antt =====
-- The pipeline from points to the ring of a cluster (src/clustering/geometry.rs). The crate `geo`
-- with its polygons and the arithmetic of floats are an interface.
use bo_srv_rs.Common.{
  Bool, true, false, List, [], ◌∷◌, Option, none, some, map, length, ltb, if◌then◌else◌, ◌>>=◌,
  ◌||◌, not,
}
use bo_srv_rs.Common.Int.{ℤ, pos}

-- `geo::LineString<f64>`, a ring when it is closed.
abbrev pub Ring : Type 0 → Type 0
Ring F = List (F × F)

-- What the code calls: the comparisons of floats and `py_round`; then `geo`, where a
-- `MultiPolygon` is the list of its polygons.
pub record Geo (F P : Type 0) : Type 0 where
  pub zero : F
  pub is_gt : F → F → Bool
  pub is_le : F → F → Bool
  -- `partial_cmp(..).unwrap_or(Equal)` is `Greater`.
  pub is_greater : F → F → Bool
  pub py_round : F → ℤ → F
  pub convex_hull : List (F × F) → P
  pub buffer : Ring F → F → List P
  pub polygon : Ring F → P
  pub simplify : P → F → P
  pub intersection : P → P → List P
  pub join : P → P → List P
  pub exterior : P → Ring F
  pub interiors : P → List (Ring F)
  pub unsigned_area : P → F
  pub total_area : List P → F

abbrev pub is_empty : {A : Type 0} → List A → Bool
is_empty [] = true
is_empty (_ ∷ _) = false

module _ {F P : Type 0} (geo : Geo F P) where
  open geo use {
    zero, is_gt, is_le, is_greater, py_round, convex_hull, buffer, polygon, simplify, intersection,
    join, exterior, interiors, unsigned_area, total_area,
  }

  -- A ring with its coordinates rounded.
  abbrev pub rounded : ℤ → Ring F → Ring F
  rounded precision = map (λ c. (py_round c.0 precision, py_round c.1 precision))

  unfoldable pub convex_hull_ring : List (F × F) → ℤ → Option (Ring F)
  convex_hull_ring points precision =
      if ltb (length points) 3
      then none
      else let ring = exterior (convex_hull points) in
        if ltb (length ring) 4 then none else some (rounded precision ring)

  -- `max_by` on the areas: of two polygons that tie the later one stays.
  unfoldable pub largest : P → List P → P
  largest p [] = p
  largest p (q ∷ ps) = largest (if is_greater (unsigned_area p) (unsigned_area q) then p else q) ps

  unfoldable pub buffer_ring : Ring F → F → Ring F
  unfolding largest
  buffer_ring ring distance = elim (buffer ring distance) [
    | [] ↦ []
    | p ∷ ps ↦ rounded (pos 4) (exterior (largest p ps))
  ]

  unfoldable pub simplify_ring : Ring F → F → Ring F
  simplify_ring ring tolerance =
      if ltb (length ring) 4
      then ring
      else rounded (pos 4) (exterior (simplify (polygon ring) tolerance))

  unfoldable pub ring_polygon : Ring F → Option P
  ring_polygon ring = if ltb (length ring) 4 then none else some (polygon ring)

  unfoldable pub rings_overlap : Ring F → Ring F → Bool
  unfolding ring_polygon
  rings_overlap a b = elim (ring_polygon a) [
    | none ↦ false
    | some p ↦ elim (ring_polygon b) [
      | none ↦ false
      | some q ↦ is_gt (total_area (intersection p q)) zero
    ]
  ]

  -- The union as one ring, from the polygons it consists of.
  unfoldable pub single_ring : List P → Option (Ring F)
  single_ring (p ∷ []) =
      let ring = rounded (pos 4) (exterior p) in
      if not (is_empty (interiors p)) || is_le (unsigned_area p) zero || ltb (length ring) 4
      then none
      else some ring
  single_ring _ = none

  unfoldable pub union_rings : Ring F → Ring F → Option (Ring F)
  unfolding ring_polygon single_ring
  union_rings a b = do p ← ring_polygon a; q ← ring_polygon b; single_ring (join p q)
