-- ===== src/Clustering/Growth.antt =====
-- `build_shape` (src/clustering/base.rs) gives a ring for all points that contain points for which
-- it gives one. What is asked of `geo` is its documented behaviour.
use mathlib.Core.List.{Perm}
use bo_srv_rs.Common.{
  ◌≤◌, false, List, [], ◌∷◌, ◌++◌, some, ◌≡◌, refl, arith, length, All, length-map, length-append,
  length-perm, inl, inr, Bool-cases,
}
use bo_srv_rs.Common.Int.{ℤ, pos}
use bo_srv_rs.Clustering.Geometry.{
  Ring, Geo, is_empty, rounded, convex_hull_ring, largest, buffer_ring, simplify_ring, ring_polygon,
  rings_overlap,
}
use bo_srv_rs.Clustering.Shapes.{Clustering, build_shape}

-- Points that span an area still do among more points, in any order; the buffer of a ring is at least
-- one polygon, none of them without an exterior; what simplifying leaves of a polygon has an
-- exterior; and an intersection does not depend on the order of the two.
pub record IsPlanar {F P : Type 0} (geo : Geo F P) (clustering : Clustering F) : Type 0 where
  pub convex_hull_grows :
      (ps rest qs : List (F × F))
      → Perm (ps ++ rest) qs
      → 4 ≤ length (geo.exterior (geo.convex_hull ps))
      → 4 ≤ length (geo.exterior (geo.convex_hull qs))
  pub buffer_some :
      (ring : Ring F)
      → 4 ≤ length ring
      → (p : P) × (ps : List P) × (geo.buffer ring clustering.buffer_size ≡ p ∷ ps)
        × All (λ q. 1 ≤ length (geo.exterior q)) (p ∷ ps)
  pub simplify_some :
      (ring : Ring F)
      → 4 ≤ length ring
      → 1 ≤ length (geo.exterior (geo.simplify (geo.polygon ring) clustering.coordinate_accuracy))
  pub intersection_comm :
      (p q : P)
      → geo.is_gt (geo.total_area (geo.intersection p q)) geo.zero
        ≡ geo.is_gt (geo.total_area (geo.intersection q p)) geo.zero

is_empty-false : {A : Type 0} (xs : List A) → 1 ≤ length xs → is_empty xs ≡ false
is_empty-false [] h = absurd (omega (arith, h))
is_empty-false (x ∷ xs) h = refl

module _ {F P : Type 0} (geo : Geo F P) (clustering : Clustering F) where
  length-rounded :
      (precision : ℤ) (ring : Ring F) → length (rounded geo precision ring) ≡ length ring
  length-rounded precision =
      length-map (λ (c : F × F). (geo.py_round c.0 precision, geo.py_round c.1 precision))

  pub rings_overlap_comm :
      IsPlanar geo clustering → (a b : Ring F) → rings_overlap geo a b ≡ rings_overlap geo b a
  unfolding rings_overlap ring_polygon
  rings_overlap_comm h a b = ground (arith, h.intersection_comm (geo.polygon a) (geo.polygon b))

  largest-All : (Q : P → Type 0) (p : P) (ps : List P) → All Q (p ∷ ps) → Q (largest geo p ps)
  unfolding largest
  largest-All Q p [] h = h.0
  largest-All Q p (q ∷ ps) h =
      elim (Bool-cases (geo.is_greater (geo.unsigned_area p) (geo.unsigned_area q))) [
        | inl e ↦ rw (e, largest) (largest-All Q p ps (h.0, h.1.1))
        | inr e ↦ rw (e, largest) (largest-All Q q ps h.1)
      ]

  buffer_ring_some :
      IsPlanar geo clustering
      → (ring : Ring F) → 4 ≤ length ring
      → 1 ≤ length (buffer_ring geo ring clustering.buffer_size)
  unfolding buffer_ring
  buffer_ring_some h ring n =
      let (p, ps, e, some_exterior) = h.buffer_some ring n in
      rw (e, buffer_ring, length-rounded (pos 4) (geo.exterior (largest geo p ps)))
        (largest-All (λ q. 1 ≤ length (geo.exterior q)) p ps some_exterior)

  simplify_ring_some :
      IsPlanar geo clustering
      → (ring : Ring F) → 1 ≤ length ring
      → 1 ≤ length (simplify_ring geo ring clustering.coordinate_accuracy)
  unfolding simplify_ring
  simplify_ring_some h ring n = ground (
    arith,
    h.simplify_some ring,
    length-rounded (pos 4)
        (geo.exterior (geo.simplify (geo.polygon ring) clustering.coordinate_accuracy)),
  )

  pub build_shape-some_size :
      (ps : List (F × F)) (ring : Ring F)
      → build_shape geo clustering ps ≡ some ring
      → (3 ≤ length ps) × (4 ≤ length (geo.exterior (geo.convex_hull ps)))
  unfolding build_shape convex_hull_ring
  build_shape-some_size ps ring e = ground (arith, e)

  build_shape-some :
      IsPlanar geo clustering
      → (ps : List (F × F)) → 3 ≤ length ps
      → 4 ≤ length (geo.exterior (geo.convex_hull ps))
      → (ring : Ring F) × (build_shape geo clustering ps ≡ some ring)
  unfolding build_shape convex_hull_ring
  build_shape-some h ps n m =
      let hull = rounded geo clustering.coordinate_precision (geo.exterior (geo.convex_hull ps)) in
      let simplified =
        simplify_ring geo (buffer_ring geo hull clustering.buffer_size)
          clustering.coordinate_accuracy in
      let enough : 4 ≤ length hull = omega (
        arith,
        m,
        length-rounded clustering.coordinate_precision (geo.exterior (geo.convex_hull ps)),
      ) in
      let empty_not =
        is_empty-false simplified (simplify_ring_some h _ (buffer_ring_some h hull enough)) in
      (simplified, ground (arith, n, m, empty_not))

  -- A ring for some points gives one for all points that contain them.
  pub build_shape-grows :
      IsPlanar geo clustering
      → (ps rest qs : List (F × F)) (ring : Ring F) → Perm (ps ++ rest) qs
      → build_shape geo clustering ps ≡ some ring
      → (ring' : Ring F) × (build_shape geo clustering qs ≡ some ring')
  build_shape-grows h ps rest qs ring p e =
      let (n, m) = build_shape-some_size ps ring e in
      build_shape-some h qs (omega (arith, n, length-append ps rest, length-perm (ps ++ rest) qs p))
        (h.convex_hull_grows ps rest qs p m)
