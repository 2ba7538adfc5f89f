-- ===== src/Clustering/Classes.antt =====
-- The vectors of `single_linkage` and the map of `build_clusters` (src/clustering/base.rs) side by
-- side: every class of the forest is a cluster of the map, under the label of its root.
use mathlib.Core.List.{Memᴰ}
use bo_srv_rs.Common.{
  ℕ, ◌+◌, ◌≤◌, ◌<◌, List, ◌∷◌, some, ◌≡◌, ◌≢◌, ◌⊎◌, sym, ap, ◌∙◌, arith, length, inl, inr,
}
use bo_srv_rs.Clustering.Shapes.{set_at}
use bo_srv_rs.Clustering.Elements.{length-set_at}
use bo_srv_rs.Clustering.Forest.{entry, entry-set_at, IsForest}
use bo_srv_rs.Clustering.Linkage.{Merge, Linkage}
use bo_srv_rs.Clustering.Clusters.{Labelled, members_at, without}
use bo_srv_rs.Clustering.Labels.{members_at-without, members_at_head, members_at_tail}
use bo_srv_rs.Clustering.Joined.{joined, joined_cases, joined-IsForest}

-- The members of a cluster: as many as its size says, and all numbers with its root.
abbrev pub IsClass : ℕ → (ℕ → ℕ) → ℕ → ℕ → List ℕ → Type 0
IsClass n root_of r size ms = (length ms ≡ size) × ((l : ℕ) → l < n → root_of l ≡ r → Memᴰ l ms)

pub record IsLinked {F : Type 0} (n : ℕ) (root_of : ℕ → ℕ) (s : Linkage F) (m : Labelled)
    : Type 0 where
  pub forest : IsForest n root_of s.union_find
  pub enough_ids : n ≤ length s.cluster_id
  pub enough_sizes : n ≤ length s.size
  pub id_lt : (k : ℕ) → k < n → entry s.cluster_id (root_of k) < s.next_label
  pub id_injective :
      (k l : ℕ)
      → k < n
      → l < n
      → entry s.cluster_id (root_of k) ≡ entry s.cluster_id (root_of l)
      → root_of k ≡ root_of l
  pub classes :
      (k : ℕ)
      → k < n
      → (ms : List ℕ) × (members_at (entry s.cluster_id (root_of k)) m ≡ some ms)
        × IsClass n root_of (root_of k) (entry s.size (root_of k)) ms

module _ {n : ℕ} {root_of : ℕ → ℕ} where
  module _ {F : Type 0} (s : Linkage F) (m : Labelled) (low high a b total : ℕ) (merged : List ℕ)
      (h : IsLinked n root_of s m) (less : low < high) (high_lt : high < n)
      (low_root : root_of low ≡ low)
      (ids : ((a ≡ entry s.cluster_id low) × (b ≡ entry s.cluster_id high))
        ⊎ ((a ≡ entry s.cluster_id high) × (b ≡ entry s.cluster_id low)))
      (high_root : root_of high ≡ high) where
    abbrev joined_id : ℕ → ℕ
    joined_id k = entry (set_at low s.next_label s.cluster_id) (joined root_of low high k)

    joined_id_low : (k : ℕ) → joined root_of low high k ≡ low → joined_id k ≡ s.next_label
    joined_id_low k e =
        ap (entry (set_at low s.next_label s.cluster_id)) e
        ∙ ground (
          arith,
          entry-set_at s.cluster_id low low s.next_label
              (omega (arith, less, high_lt, h.enough_ids)),
        )

    joined_id_other :
        (k : ℕ)
        → joined root_of low high k ≡ root_of k
        → root_of k ≢ low
        → joined_id k ≡ entry s.cluster_id (root_of k)
    joined_id_other k e other =
        ap (entry (set_at low s.next_label s.cluster_id)) e
        ∙ ground (
          arith,
          other,
          entry-set_at s.cluster_id low (root_of k) s.next_label
              (omega (arith, less, high_lt, h.enough_ids)),
        )

    -- The label of another class is neither of the two.
    other_label :
        (k : ℕ)
        → k < n
        → root_of k ≢ low
        → root_of k ≢ high
        → (entry s.cluster_id (root_of k) ≢ a) × (entry s.cluster_id (root_of k) ≢ b)
    other_label k lt not_low not_high =
        let not_low_id : entry s.cluster_id (root_of k) ≢ entry s.cluster_id low = λ e. not_low (
          h.id_injective k low lt (omega (arith, less, high_lt))
            (e ∙ ap (entry s.cluster_id) (sym low_root))
          ∙ low_root) in
        let not_high_id : entry s.cluster_id (root_of k) ≢ entry s.cluster_id high = λ e. not_high (
          h.id_injective k high lt high_lt (e ∙ ap (entry s.cluster_id) (sym high_root))
          ∙ high_root) in
        elim ids [
          | inl (at_a, at_b) ↦ (λ e. not_low_id (e ∙ at_a), λ e. not_high_id (e ∙ at_b))
          | inr (at_a, at_b) ↦ (λ e. not_high_id (e ∙ at_a), λ e. not_low_id (e ∙ at_b))
        ]

    -- A number of another class was in it before.
    other_root :
        (l k : ℕ) → joined root_of low high l ≡ root_of k → root_of k ≢ low → root_of l ≡ root_of k
    other_root l k e not_low = elim (joined_cases root_of low high l) [
      | inl (l_low, _) ↦ absurd (not_low (sym e ∙ l_low))
      | inr (same, _, _) ↦ sym same ∙ e
    ]

    joined-injective :
        (k l : ℕ)
        → k < n
        → l < n
        → joined_id k ≡ joined_id l
        → joined root_of low high k ≡ joined root_of low high l
    joined-injective k l k_lt l_lt e = elim (joined_cases root_of low high k) [
      | inl (k_low, _) ↦ elim (joined_cases root_of low high l) [
        | inl (l_low, _) ↦ k_low ∙ sym l_low
        | inr (l_same, l_other, _) ↦ absurd (
            omega
              (arith, h.id_lt l l_lt, joined_id_low k k_low, joined_id_other l l_same l_other, e))
      ]
      | inr (k_same, k_other, _) ↦ elim (joined_cases root_of low high l) [
        | inl (l_low, _) ↦ absurd (
            omega
              (arith, h.id_lt k k_lt, joined_id_low l l_low, joined_id_other k k_same k_other, e))
        | inr (l_same, l_other, _) ↦
            k_same
            ∙ h.id_injective k l k_lt l_lt
                (sym (joined_id_other k k_same k_other) ∙ e ∙ joined_id_other l l_same l_other)
            ∙ sym l_same
      ]
    ]

    joined-IsClass :
        (k : ℕ)
        → k < n
        → IsClass n (joined root_of low high) low total merged
        → (ms : List ℕ) × (members_at
              (joined_id k)
              ((s.next_label, merged) ∷ without b (without a m))
            ≡ some ms)
          × IsClass n
              (joined root_of low high)
              (joined root_of low high k)
              (entry (set_at low total s.size) (joined root_of low high k))
              ms
    joined-IsClass k lt class =
        let rest = without b (without a m) in
        let put = λ (r : ℕ).
          entry-set_at s.size low r total (omega (arith, less, high_lt, h.enough_sizes)) in
        elim (joined_cases root_of low high k) [
          | inl (k_low, _) ↦
              let size_low : entry (set_at low total s.size) low ≡ total =
                ground (arith, put low) in
              (
                merged,
                ap (λ i. members_at i ((s.next_label, merged) ∷ rest)) (joined_id_low k k_low)
                    ∙ members_at_head s.next_label merged rest,
                (
                  class.0 ∙ sym size_low ∙ ap (entry (set_at low total s.size)) (sym k_low),
                  λ l l_lt f. class.1 l l_lt (f ∙ k_low),
                ),
              )
          | inr (same, not_low, not_high) ↦
              let (ms, e, (len, mem)) = h.classes k lt in
              let r = entry s.cluster_id (root_of k) in
              let (not_a, not_b) = other_label k lt not_low not_high in
              let old_label : r ≢ s.next_label = λ f. absurd (omega (arith, h.id_lt k lt, f)) in
              let size_same : entry (set_at low total s.size) (root_of k)
                  ≡ entry s.size (root_of k) =
                ground (arith, put (root_of k), not_low) in
              (
                ms,
                ap (λ i. members_at i ((s.next_label, merged) ∷ rest))
                      (joined_id_other k same not_low)
                    ∙ members_at_tail r s.next_label merged rest old_label
                    ∙ members_at-without b r (without a m) not_b
                    ∙ members_at-without a r m not_a
                    ∙ e,
                (
                  len ∙ sym size_same ∙ ap (entry (set_at low total s.size)) (sym same),
                  λ l l_lt f. mem l l_lt (other_root l k (f ∙ same) not_low),
                ),
              )
        ]

    -- Two classes become one, whatever the order of their labels and of their roots.
    pub join-IsLinked :
        (links : List ℕ) (merges : List (Merge F))
        → IsForest n root_of links
        → IsClass n (joined root_of low high) low total merged
        → IsLinked n
            (joined root_of low high)
            (record {
              union_find = set_at high low links;
              cluster_id = set_at low s.next_label s.cluster_id;
              size = set_at low total s.size;
              next_label = s.next_label + 1;
              merges = merges;
            })
            ((s.next_label, merged) ∷ without b (without a m))
    join-IsLinked links merges forest class = record {
      forest = joined-IsForest links low high forest high_lt less low_root high_root;
      enough_ids = rw (length-set_at s.cluster_id low s.next_label) h.enough_ids;
      enough_sizes = rw (length-set_at s.size low total) h.enough_sizes;
      id_lt = λ k lt. elim (joined_cases root_of low high k) [
        | inl (k_low, _) ↦ omega (arith, joined_id_low k k_low)
        | inr (same, other, _) ↦ omega (arith, joined_id_other k same other, h.id_lt k lt)
      ];
      id_injective = joined-injective;
      classes = λ k lt. joined-IsClass k lt class;
    }
