-- ===== src/Clustering/Sample.antt =====
-- A small plane for the tests: coordinates are numbers, a polygon is its ring, and two polygons
-- overlap where their first coordinates do.
use mathlib.Core.List.{Perm}
use bo_srv_rs.Common.{
  ℕ, suc, ◌+◌, ◌-◌, ◌≤◌, min, max, List, [], ◌∷◌, ◌++◌, ◌≡◌, refl, ap, arith, length, ltb, leb,
  ◌==◌, length-append, length-perm,
}
use bo_srv_rs.Common.Int.{pos}
use bo_srv_rs.Clustering.Geometry.{Ring, Geo}
use bo_srv_rs.Clustering.Shapes.{Clustering}
use bo_srv_rs.Clustering.Growth.{IsPlanar}
use bo_srv_rs.Clustering.Linkage.{Distances}

-- The points, and the first one again.
abbrev closed : Ring ℕ → Ring ℕ
closed [] = []
closed (p ∷ ps) = p ∷ (ps ++ p ∷ [])

abbrev least : Ring ℕ → ℕ
least [] = 0
least (p ∷ []) = p.0
least (p ∷ ps) = min p.0 (least ps)

abbrev greatest : Ring ℕ → ℕ
greatest [] = 0
greatest (p ∷ ps) = max p.0 (greatest ps)

abbrev area : List (Ring ℕ) → ℕ
area ((p ∷ _) ∷ _) = p.0
area _ = 0

abbrev pub plane : Geo ℕ (Ring ℕ)
plane = record {
  zero = 0;
  is_gt = λ a b. ltb b a;
  is_le = leb;
  is_greater = λ a b. ltb b a;
  py_round = λ a _. a;
  convex_hull = closed;
  buffer = λ ring _. ring ∷ [];
  polygon = λ ring. ring;
  simplify = λ p _. p;
  intersection = λ p q. ((min (greatest p) (greatest q) - max (least p) (least q), 0) ∷ []) ∷ [];
  join = λ p q. (p ++ q) ∷ [];
  exterior = λ p. p;
  interiors = λ _. [];
  unsigned_area = λ _. 1;
  total_area = area;
}

abbrev pub distances : Distances (ℕ × ℕ) ℕ
distances = record {
  zero_distance = 0;
  infinity = 1000;
  is_lt = ltb;
  is_gt = λ a b. ltb b a;
  is_less = ltb;
  is_equal = ◌==◌;
  between = λ p q. ((p.0 - q.0) + (q.0 - p.0)) + ((p.1 - q.1) + (q.1 - p.1));
}

abbrev pub settings : Clustering ℕ
settings = record {
  distance_limit = 3;
  coordinate_accuracy = 1;
  buffer_size = 1;
  coordinate_precision = pos 4;
}

length-closed : (ps : Ring ℕ) → 4 ≤ length (closed ps) → length (closed ps) ≡ suc (length ps)
length-closed [] h = absurd (omega (arith, h))
length-closed (p ∷ ps) h = omega (arith, length-append ps (p ∷ []))

length-closed_of_some : (ps : Ring ℕ) → 1 ≤ length ps → length (closed ps) ≡ suc (length ps)
length-closed_of_some [] h = absurd (omega (arith, h))
length-closed_of_some (p ∷ ps) h = omega (arith, length-append ps (p ∷ []))

plane_grows :
    (ps rest qs : Ring ℕ) → Perm (ps ++ rest) qs → 4 ≤ length (closed ps) → 4 ≤ length (closed qs)
plane_grows ps rest qs p h =
    let longer : length ps ≤ length qs =
      omega (arith, length-append ps rest, length-perm (ps ++ rest) qs p) in
    let enough = length-closed ps h in
    omega (arith, length-closed_of_some qs (omega (arith, longer, enough, h)), longer, enough, h)

pub plane-IsPlanar : IsPlanar plane settings
plane-IsPlanar = record {
  convex_hull_grows = plane_grows;
  buffer_some = λ ring h. (ring, [], refl, (omega (arith, h), tt));
  simplify_some = λ ring h. omega (arith, h);
  intersection_comm = λ p q.
      let overlap = λ (a b : Ring ℕ). min (greatest a) (greatest b) - max (least a) (least b) in
      let same : overlap p q ≡ overlap q p = omega arith in ap (ltb 0) same;
}
