-- ===== src/Clustering/Joined.antt =====
-- The forest of `union_find` (src/clustering/base.rs) once one root is linked to another.
use bo_srv_rs.Common.{
  ℕ, ◌<◌, List, ◌≡◌, ◌≢◌, ◌⊎◌, sym, ap, subst, ◌∙◌, arith, length, ◌==◌, if◌then◌else◌, inl, inr,
  Bool-cases, ==_iff,
}
use bo_srv_rs.Clustering.Shapes.{set_at}
use bo_srv_rs.Clustering.Elements.{length-set_at}
use bo_srv_rs.Clustering.Forest.{entry, entry-set_at, IsForest}

-- The roots once the class of `high` belongs to `low`.
abbrev pub joined : (ℕ → ℕ) → ℕ → ℕ → ℕ → ℕ
joined root_of low high k = if root_of k == high then low else root_of k

-- A class of the joined roots is one of both, or another one as it was.
pub joined_cases :
    (root_of : ℕ → ℕ) (low high k : ℕ)
    → ((joined root_of low high k ≡ low) × ((root_of k ≡ low) ⊎ (root_of k ≡ high)))
      ⊎ ((joined root_of low high k ≡ root_of k) × (root_of k ≢ low) × (root_of k ≢ high))
joined_cases root_of low high k = elim (Bool-cases (root_of k == high)) [
  | inl e ↦ inl (ground (arith, e), inr ((==_iff (root_of k) high).0 e))
  | inr e ↦ elim (Bool-cases (root_of k == low)) [
    | inl f ↦ inl (ground (arith, e, f), inl ((==_iff (root_of k) low).0 f))
    | inr f ↦ inr (ground (arith, e), ground (arith, f), ground (arith, e))
  ]
]

module _ {n : ℕ} {root_of : ℕ → ℕ} where
  pub joined-IsForest :
      (links : List ℕ) (low high : ℕ)
      → IsForest n root_of links
      → high < n
      → low < high
      → root_of low ≡ low
      → root_of high ≡ high
      → IsForest n (joined root_of low high) (set_at high low links)
  joined-IsForest links low high h high_lt less low_root high_root =
      let inside : high < length links = omega (arith, high_lt, h.enough) in
      let put = λ (k : ℕ). entry-set_at links high k low inside in
      let low_fixed : entry links low ≡ low =
        subst (λ r. entry links r ≡ r) low_root (h.root_fixed low (omega (arith, less, high_lt))) in
      record {
        enough = rw (length-set_at links high low) h.enough;
        link_le = λ k lt. ground (arith, put k, h.link_le k lt, less);
        link_root = λ k lt. elim (Bool-cases (high == k)) [
          | inl e ↦
              let same : high ≡ k = (==_iff high k).0 e in
              let now : entry (set_at high low links) k ≡ low = ground (arith, put k, e) in
              let root_k : root_of k ≡ high = sym (ap root_of same) ∙ high_root in
              rw now (ground (arith, low_root, root_k, less))
          | inr e ↦
              let now : entry (set_at high low links) k ≡ entry links k =
                ground (arith, put k, e) in
              ap (joined root_of low high) now
              ∙ ap (λ r. if r == high then low else r) (h.link_root k lt)
        ];
        root_link = λ k lt e. ground (arith, put k, e, h.root_link k lt, less, high_root);
        root_fixed =
            λ k lt. ground (arith, put low, put (root_of k), h.root_fixed k lt, low_fixed, less);
        root_le = λ k lt. ground (arith, h.root_le k lt, less);
      }
