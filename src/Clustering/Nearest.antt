-- ===== src/Clustering/Nearest.antt =====
-- The search for the next vertex of the tree in `single_linkage` (src/clustering/base.rs), and what
-- the rounds of the loop keep of the vertices.
use bo_srv_rs.Common.{
  ℕ, zero, suc, ◌+◌, ◌≤◌, Bool, true, false, List, [], ◌∷◌, Option, none, some, map, ◌≡◌, ◌⊎◌, refl,
  sym, ap, ◌∙◌, arith, length, get_elem?, not, bit, count, All, ◌&&◌, inl, inr, Bool-cases,
}
use bo_srv_rs.Clustering.Shapes.{set_at}
use bo_srv_rs.Clustering.Linkage.{Distances, Vertex, vertices, start, is_closer, nearest, relax}

module _ {P F : Type 0} where
  abbrev pub is_open : Vertex P F → Bool
  is_open v = not v.in_tree

  -- An open vertex of a list, by its number from a start.
  abbrev pub Found : ℕ → List (Vertex P F) → ℕ → Type 0
  Found i vs u =
      (j : ℕ) × (v : Vertex P F) × (u ≡ i + j) × (get_elem? vs j ≡ some v) × (v.in_tree ≡ false)

  pub count-set_at :
      (vs : List (Vertex P F)) (u : ℕ) (v w : Vertex P F)
      → get_elem? vs u ≡ some v
      → v.in_tree ≡ false
      → w.in_tree ≡ true
      → suc (count is_open (set_at u w vs)) ≡ count is_open vs
  count-set_at [] u v w e f g = absurd (ground (arith, e))
  count-set_at (x ∷ vs) zero v w e f g =
      let same : x ≡ v = cc in ground (arith, ap (λ y. y.in_tree) same, f, g)
  count-set_at (x ∷ vs) (suc u) v w e f g = omega (arith, count-set_at vs u v w e f g)

  pub points-set_at :
      (vs : List (Vertex P F)) (u : ℕ) (v w : Vertex P F)
      → get_elem? vs u ≡ some v
      → w.point ≡ v.point
      → map (λ x. x.point) (set_at u w vs) ≡ map (λ x. x.point) vs
  points-set_at [] u v w e f = refl
  points-set_at (x ∷ vs) zero v w e f =
      let same : x ≡ v = cc in
      ap (λ q. q ∷ map (λ (y : Vertex P F). y.point) vs) (f ∙ ap (λ y. y.point) (sym same))
  points-set_at (x ∷ vs) (suc u) v w e f = ap (◌∷◌ x.point) (points-set_at vs u v w e f)

module _ {P F : Type 0} (d : Distances P F) where
  open d use {between}

  closer-open : (u : Option (ℕ × F)) (v : Vertex P F) → is_closer d u v ≡ true → v.in_tree ≡ false
  closer-open none v h = ground (arith, h)
  closer-open (some r) v h = ground (arith, h)

  pub relax-same :
      (u : ℕ) (p : P) (v : Vertex P F)
      → ((relax d u p v).in_tree ≡ v.in_tree) × ((relax d u p v).point ≡ v.point)
  relax-same u p v = elim (Bool-cases (not v.in_tree && d.is_lt (between p v.point) v.key)) [
    | inl e ↦ rw e (refl, refl)
    | inr e ↦ rw e (refl, refl)
  ]

  nearest_of_some :
      (i : ℕ) (r : ℕ × F) (vs : List (Vertex P F))
      → (r' : ℕ × F) × (nearest d i (some r) vs ≡ some r')
  unfolding nearest
  nearest_of_some i r [] = (r, refl)
  nearest_of_some i r (v ∷ vs) = elim (Bool-cases (is_closer d (some r) v)) [
    | inl e ↦ rw (e, nearest) (nearest_of_some (suc i) (i, v.key) vs)
    | inr e ↦ rw (e, nearest) (nearest_of_some (suc i) r vs)
  ]

  pub nearest-some :
      (i : ℕ) (vs : List (Vertex P F))
      → 1 ≤ count is_open vs
      → (r : ℕ × F) × (nearest d i none vs ≡ some r)
  unfolding nearest
  nearest-some i [] h = absurd (omega (arith, h))
  nearest-some i (v ∷ vs) h = elim (Bool-cases v.in_tree) [
    | inr e ↦ rw (e, nearest) (nearest_of_some (suc i) (i, v.key) vs)
    | inl e ↦ rw (e, nearest) (nearest-some (suc i) vs (ground (arith, h, e)))
  ]

  pub nearest-Found :
      (i : ℕ) (u : Option (ℕ × F)) (vs : List (Vertex P F)) (r : ℕ × F)
      → nearest d i u vs ≡ some r
      → (u ≡ some r) ⊎ Found i vs r.0
  unfolding nearest
  nearest-Found i u [] r e = inl e
  nearest-Found i u (v ∷ vs) r e = elim (Bool-cases (is_closer d u v)) [
    | inl closer ↦
        elim (nearest-Found (suc i) (some (i, v.key)) vs r (sym (rw (closer, nearest) refl) ∙ e)) [
          | inl this ↦
              let same : (i, v.key) ≡ r = cc in
              inr (0, v, omega (arith, ap (λ x. x.0) same), refl, closer-open u v closer)
          | inr (j, w, f, g, h) ↦ inr (suc j, w, omega (arith, f), g, h)
        ]
    | inr farther ↦ elim (nearest-Found (suc i) u vs r (sym (rw (farther, nearest) refl) ∙ e)) [
      | inl before ↦ inl before
      | inr (j, w, f, g, h) ↦ inr (suc j, w, omega (arith, f), g, h)
    ]
  ]

  pub count-relax :
      (u : ℕ) (p : P) (vs : List (Vertex P F))
      → count is_open (map (relax d u p) vs) ≡ count is_open vs
  count-relax u p [] = refl
  count-relax u p (v ∷ vs) =
      omega (arith, ap (λ b. bit (not b)) (relax-same u p v).0, count-relax u p vs)

  pub points-relax :
      (u : ℕ) (p : P) (vs : List (Vertex P F))
      → map (λ v. v.point) (map (relax d u p) vs) ≡ map (λ v. v.point) vs
  points-relax u p [] = refl
  points-relax u p (v ∷ vs) = rw ((relax-same u p v).1, points-relax u p vs) refl

  pub points-start :
      (vs : List (Vertex P F)) → map (λ v. v.point) (start d vs) ≡ map (λ v. v.point) vs
  points-start [] = refl
  points-start (v ∷ vs) = refl

  pub points-vertices : (qs : List P) → map (λ v. v.point) (vertices d qs) ≡ qs
  points-vertices [] = refl
  points-vertices (q ∷ qs) = ap (◌∷◌ q) (points-vertices qs)

  pub count-start : (vs : List (Vertex P F)) → count is_open (start d vs) ≡ count is_open vs
  count-start [] = refl
  count-start (v ∷ vs) = refl

  pub count-vertices : (qs : List P) → count is_open (vertices d qs) ≡ length qs
  count-vertices [] = refl
  count-vertices (q ∷ qs) = omega (arith, count-vertices qs)

  pub All-start :
      (vs : List (Vertex P F))
      → All (λ v. v.parent ≡ none) vs
      → All (λ v. v.parent ≡ none) (start d vs)
  All-start [] h = tt
  All-start (v ∷ vs) h = h

  pub All-vertices : (qs : List P) → All (λ v. v.parent ≡ none) (vertices d qs)
  All-vertices [] = tt
  All-vertices (q ∷ qs) = (refl, All-vertices qs)
