-- ===== src/Clustering/Tree.antt =====
-- The spanning tree of `single_linkage` (src/clustering/base.rs): every round finds a vertex, and an
-- edge has two points for its ends, with their distance.
use bo_srv_rs.Common.{
  ℕ, zero, suc, ◌<◌, true, List, [], ◌∷◌, none, some, map, ◌≡◌, ◌⊎◌, refl, sym, ap, subst, ◌∙◌,
  arith, length, get_elem?, ltb, not, count, All, All-imp, All-append, ◌&&◌, inl, inr, Bool-cases,
  Option-cases,
}
use bo_srv_rs.Clustering.Shapes.{set_at}
use bo_srv_rs.Clustering.Elements.{pick, All-get_elem?, All-set_at}
use bo_srv_rs.Clustering.Linkage.{
  Distances, Vertex, Edge, ordered, vertices, start, relax, add_edge, add_vertex, add_vertices,
}
use bo_srv_rs.Clustering.Nearest.{
  is_open, nearest-some, nearest-Found, count-set_at, count-relax, points-relax, points-set_at,
  points-start, points-vertices, count-start, count-vertices, All-start, All-vertices,
}

module _ {P F : Type 0} (d : Distances P F) (p0 : P) (points : List P) where
  open d use {between}

  abbrev pub at : ℕ → P
  at = pick p0 points

  -- Two points, one before the other, and their distance.
  abbrev pub IsEdge : Edge F → Type 0
  IsEdge (e, i, j) =
      (i < length points)
      × (j < length points)
      × ((e ≡ between (at i) (at j)) ⊎ (e ≡ between (at j) (at i)))

  abbrev pub IsVertex : Vertex P F → Type 0
  IsVertex v = (p : ℕ) → v.parent ≡ some p → (p < length points) × (v.key ≡ between (at p) v.point)

  -- With the number of vertices that are not in the tree yet.
  pub record IsTree (left : ℕ) (s : List (Vertex P F) × List (Edge F)) : Type 0 where
    pub same_points : map (λ v. v.point) s.0 ≡ points
    pub still_open : count is_open s.0 ≡ left
    pub parents : All IsVertex s.0
    pub edges : All IsEdge s.1

  point-at_map :
      (vs : List (Vertex P F)) (u : ℕ) (v : Vertex P F)
      → get_elem? vs u ≡ some v
      → (u < length (map (λ x. x.point) vs)) × (v.point ≡ pick p0 (map (λ x. x.point) vs) u)
  point-at_map [] u v f = absurd (ground (arith, f))
  point-at_map (x ∷ vs) zero v f =
      let same : x ≡ v = cc in (omega arith, ap (λ y. y.point) (sym same))
  point-at_map (x ∷ vs) (suc u) v f = let (lt, e) = point-at_map vs u v f in (omega (arith, lt), e)

  point-at :
      (vs : List (Vertex P F)) (qs : List P) (u : ℕ) (v : Vertex P F)
      → map (λ x. x.point) vs ≡ qs
      → get_elem? vs u ≡ some v
      → (u < length qs) × (v.point ≡ pick p0 qs u)
  point-at vs qs u v e f =
      subst (λ qs. (u < length qs) × (v.point ≡ pick p0 qs u)) e (point-at_map vs u v f)

  IsVertex-relax_one :
      (u : ℕ) → u < length points → (v : Vertex P F) → IsVertex v → IsVertex (relax d u (at u) v)
  IsVertex-relax_one u lt v h =
      elim (Bool-cases (not v.in_tree && d.is_lt (between (at u) v.point) v.key)) [
        | inl e ↦ rw e (λ p q.
            let same : u ≡ p = cc in
            subst (λ k. (k < length points) × (between (at u) v.point ≡ between (at k) v.point))
              same (lt, refl))
        | inr e ↦ rw e h
      ]

  IsVertex-relax :
      (u : ℕ)
      → u < length points
      → (vs : List (Vertex P F)) → All IsVertex vs
      → All IsVertex (map (relax d u (at u)) vs)
  IsVertex-relax u lt [] h = tt
  IsVertex-relax u lt (v ∷ vs) h = (IsVertex-relax_one u lt v h.0, IsVertex-relax u lt vs h.1)

  abbrev edge_of : F → ℕ × ℕ → Edge F
  edge_of e (i, j) = (e, i, j)

  ordered-IsEdge :
      (e : F) (p u : ℕ)
      → p < length points
      → u < length points
      → e ≡ between (at p) (at u)
      → IsEdge (edge_of e (ordered p u))
  ordered-IsEdge e p u p_lt lt h = elim (Bool-cases (ltb p u)) [
    | inl less ↦ rw less (p_lt, lt, inl h)
    | inr more ↦ rw more (lt, p_lt, inr h)
  ]

  add_edge-IsEdge :
      (u : ℕ) (v : Vertex P F) (edges : List (Edge F))
      → u < length points
      → v.point ≡ at u
      → IsVertex v
      → All IsEdge edges
      → All IsEdge (add_edge d u v edges)
  add_edge-IsEdge u v edges lt here ok h = elim (Option-cases v.parent) [
    | inl e ↦ rw e h
    | inr (p, e) ↦
        let (p_lt, key) = ok p e in
        let measured : v.key ≡ between (at p) (at u) = key ∙ ap (between (at p)) here in
        rw e (
          All-append IsEdge edges (edge_of v.key (ordered p u) ∷ []) h
            (ordered-IsEdge v.key p u p_lt lt measured, tt))
  ]

  -- A round adds an open vertex, if there is one.
  add_vertex-IsTree :
      (left : ℕ) (s : List (Vertex P F) × List (Edge F))
      → IsTree (suc left) s
      → (s' : List (Vertex P F) × List (Edge F)) × (add_vertex d s ≡ some s') × IsTree left s'
  unfolding add_vertex
  add_vertex-IsTree left (vs, edges) h =
      let (r, e) = nearest-some d 0 vs (omega (arith, h.still_open)) in
      elim (nearest-Found d 0 none vs r e) [
        | inl never ↦ cc
        | inr (u, v, num, got, open_) ↦
            let (lt, here) = point-at vs points u v h.same_points got in
            let to_u : r.0 ≡ u = omega (arith, num) in
            let old = All-get_elem? IsVertex vs u got h.parents in
            let v' : Vertex P F = record v { in_tree = true } in
            let vs' = set_at u v' vs in
            (
              (map (relax d u v.point) vs', add_edge d u v edges),
              rw (e, to_u, got, add_vertex) refl,
              record {
                same_points =
                    points-relax d u v.point vs' ∙ points-set_at vs u v v' got refl ∙ h.same_points;
                still_open = omega (
                  arith,
                  count-relax d u v.point vs',
                  count-set_at vs u v v' got open_ refl,
                  h.still_open,
                );
                parents =
                    subst (λ q. All IsVertex (map (relax d u q) vs')) (sym here)
                      (IsVertex-relax u lt vs' (All-set_at IsVertex vs u v' old h.parents));
                edges = add_edge-IsEdge u v edges lt here old h.edges;
              },
            )
      ]

  pub add_vertices-IsTree :
      (n : ℕ) (s : List (Vertex P F) × List (Edge F))
      → IsTree n s
      → (s' : List (Vertex P F) × List (Edge F)) × (add_vertices d n s ≡ some s') × IsTree 0 s'
  unfolding add_vertices
  add_vertices-IsTree zero s h = (s, refl, h)
  add_vertices-IsTree (suc n) s h =
      let (s', e, h') = add_vertex-IsTree n s h in
      let (s'', e', h'') = add_vertices-IsTree n s' h' in (s'', rw (add_vertices, e) e', h'')

  vertices-IsTree : IsTree (length points) (start d (vertices d points), [])
  vertices-IsTree = record {
    same_points = points-start d (vertices d points) ∙ points-vertices d points;
    still_open = count-start d (vertices d points) ∙ count-vertices d points;
    parents =
        All-imp (λ (v : Vertex P F). v.parent ≡ none) IsVertex
          (λ v e p f. absurd (ground (arith, e, f))) (start d (vertices d points))
          (All-start d (vertices d points) (All-vertices d points));
    edges = tt;
  }

  -- The loop over the tree ends, and its edges are those of points, with their distances.
  pub add_vertices-IsEdge :
      (s : List (Vertex P F) × List (Edge F)) × (add_vertices d
          (length points)
          (start d (vertices d points), [])
        ≡ some s)
      × All IsEdge s.1
  add_vertices-IsEdge =
      let (s, e, h) = add_vertices-IsTree (length points) _ vertices-IsTree in (s, e, h.edges)
