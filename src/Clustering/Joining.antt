-- ===== src/Clustering/Joining.antt =====
-- The merges of `single_linkage` applied to the map of `build_clusters` (src/clustering/base.rs): an
-- edge either joins nothing, or its merge can be applied, and the clusters stay the classes.
use mathlib.Core.List.Perm
use mathlib.Core.List.Memᴰ
use mathlib.Core.List.{Perm, Memᴰ}
use bo_srv_rs.Common.{
  ℕ, ◌+◌, ◌<◌, List, [], ◌∷◌, ◌++◌, some, ◌≡◌, ◌≢◌, ◌⊎◌, refl, sym, ap, subst, ◌∙◌, arith, length,
  ◌==◌, inl, inr, Bool-cases, ==_iff, length-append, append_assoc, All,
}
use bo_srv_rs.Clustering.Shapes.{set_at}
use bo_srv_rs.Clustering.Forest.{entry, IsForest, root_of-root_of}
use bo_srv_rs.Clustering.Linkage.{Merge, Linkage}
use bo_srv_rs.Clustering.Clusters.{Labelled, members_at, without, apply_merge}
use bo_srv_rs.Clustering.Labels.{
  all_members, all_members-without, members_at-without, IsChained, append-IsChained,
}
use bo_srv_rs.Clustering.Classes.{IsLinked, join-IsLinked}
use bo_srv_rs.Clustering.Joined.{joined, joined_cases}

-- Every cluster of the map is held together by chains.
abbrev pub AllChained : (ℕ → ℕ → Type 0) → Labelled → Type 0
AllChained Near m = All (λ c. IsChained Near c.1) m

members_at-IsChained :
    (Near : ℕ → ℕ → Type 0) (k : ℕ) (m : Labelled) (ms : List ℕ)
    → members_at k m ≡ some ms
    → AllChained Near m
    → IsChained Near ms
unfolding members_at
members_at-IsChained Near k [] ms e h = cc
members_at-IsChained Near k ((l, ns) ∷ m) ms e h = elim (Bool-cases (l == k)) [
  | inl found ↦ let same : ns ≡ ms = ground (arith, e, found) in subst (IsChained Near) same h.0
  | inr other ↦
      let rest : members_at k m ≡ some ms = ground (arith, e, other) in
      members_at-IsChained Near k m ms rest h.1
]

without-AllChained :
    (Near : ℕ → ℕ → Type 0) (k : ℕ) (m : Labelled)
    → AllChained Near m
    → AllChained Near (without k m)
unfolding without
without-AllChained Near k [] h = tt
without-AllChained Near k ((l, ns) ∷ m) h = elim (Bool-cases (l == k)) [
  | inl found ↦ rw (found, without) h.1
  | inr other ↦ rw (other, without) (h.0, without-AllChained Near k m h.1)
]

member_of_joined :
    (root_of : ℕ → ℕ) (low high l x y : ℕ) (ma mb : List ℕ)
    → ((low ≡ root_of x) × (high ≡ root_of y)) ⊎ ((low ≡ root_of y) × (high ≡ root_of x))
    → joined root_of low high l ≡ low
    → (root_of l ≡ root_of x → Memᴰ l ma)
    → (root_of l ≡ root_of y → Memᴰ l mb)
    → Memᴰ l (ma ++ mb)
member_of_joined root_of low high l x y ma mb which e in_a in_b =
    elim (joined_cases root_of low high l) [
      | inr (same, not_low, _) ↦ absurd (not_low (sym same ∙ e))
      | inl (_, inl at_low) ↦ elim which [
        | inl (f, g) ↦ Memᴰ.append_left mb (in_a (at_low ∙ f))
        | inr (f, g) ↦ Memᴰ.append_right ma (in_b (at_low ∙ f))
      ]
      | inl (_, inr at_high) ↦ elim which [
        | inl (f, g) ↦ Memᴰ.append_right ma (in_b (at_high ∙ g))
        | inr (f, g) ↦ Memᴰ.append_left mb (in_a (at_high ∙ g))
      ]
    ]

module _ {F : Type 0} (Near : ℕ → ℕ → Type 0) (n : ℕ) (s : Linkage F) (m : Labelled) where
  -- What the merge of the classes of two numbers does to the map.
  pub record Merged (merge : Merge F) (links : List ℕ) (x y low high total : ℕ) (root_of : ℕ → ℕ)
      : Type 0 where
    pub after : Labelled
    pub applied : apply_merge s.next_label merge m ≡ some after
    pub linked :
        (merges : List (Merge F))
        → IsLinked n
            (joined root_of low high)
            (record {
              union_find = set_at high low links;
              cluster_id = set_at low s.next_label s.cluster_id;
              size = set_at low total s.size;
              next_label = s.next_label + 1;
              merges = merges;
            })
            after
    pub kept : Perm (all_members after) (all_members m)
    pub chained : Near x y → Near y x → AllChained Near m → AllChained Near after

  pub merge-Merged :
      (merge : Merge F) (links : List ℕ) (x y low high : ℕ) (root_of : ℕ → ℕ)
      → IsLinked n root_of s m
      → IsForest n root_of links
      → x < n
      → y < n
      → low < high
      → ((low ≡ root_of x) × (high ≡ root_of y)) ⊎ ((low ≡ root_of y) × (high ≡ root_of x))
      → merge.cluster_a ≡ entry s.cluster_id (root_of x)
      → merge.cluster_b ≡ entry s.cluster_id (root_of y)
      → merge.size ≡ entry s.size (root_of x) + entry s.size (root_of y)
      → Merged merge links x y low high merge.size root_of
  unfolding apply_merge
  merge-Merged merge links x y low high root_of h forest x_lt y_lt less which at_a at_b size =
      let (ma, ea, (na, mem_a)) = h.classes x x_lt in
      let (mb, eb, (nb, mem_b)) = h.classes y y_lt in
      let xx = root_of-root_of links x forest x_lt in
      let yy = root_of-root_of links y forest y_lt in
      let low_root : root_of low ≡ low = elim which [
        | inl (f, g) ↦ ap root_of f ∙ xx ∙ sym f
        | inr (f, g) ↦ ap root_of f ∙ yy ∙ sym f
      ] in
      let high_root : root_of high ≡ high = elim which [
        | inl (f, g) ↦ ap root_of g ∙ yy ∙ sym g
        | inr (f, g) ↦ ap root_of g ∙ xx ∙ sym g
      ] in
      let high_lt : high < n = elim which [
        | inl (f, g) ↦ omega (arith, g, forest.root_le y y_lt, y_lt)
        | inr (f, g) ↦ omega (arith, g, forest.root_le x x_lt, x_lt)
      ] in
      let at_a_m : members_at merge.cluster_a m ≡ some ma = ap (λ k. members_at k m) at_a ∙ ea in
      let at_b_m : members_at merge.cluster_b m ≡ some mb = ap (λ k. members_at k m) at_b ∙ eb in
      let roots_differ : root_of x ≢ root_of y = elim which [
        | inl (f, g) ↦ λ e. omega (arith, f, g, e, less)
        | inr (f, g) ↦ λ e. omega (arith, f, g, e, less)
      ] in
      let distinct : merge.cluster_b ≢ merge.cluster_a =
        λ e. roots_differ (h.id_injective x y x_lt y_lt (sym at_a ∙ sym e ∙ at_b)) in
      let ids =
        elim which
          as (λ _.
            ((merge.cluster_a ≡ entry s.cluster_id low)
              × (merge.cluster_b ≡ entry s.cluster_id high))
            ⊎ ((merge.cluster_a ≡ entry s.cluster_id high)
                × (merge.cluster_b ≡ entry s.cluster_id low))) [
                  | inl (f, g) ↦ inl (
                    at_a ∙ ap (entry s.cluster_id) (sym f),
                    at_b ∙ ap (entry s.cluster_id) (sym g),
                  )
                  | inr (f, g) ↦ inr (
                    at_a ∙ ap (entry s.cluster_id) (sym g),
                    at_b ∙ ap (entry s.cluster_id) (sym f),
                  )
                ] in
      let left_b = members_at-without merge.cluster_a merge.cluster_b m distinct ∙ at_b_m in
      let long : length (ma ++ mb) ≡ merge.size =
        omega (arith, length-append ma mb, na, nb, size) in
      record {
        after = (s.next_label, ma ++ mb) ∷ without merge.cluster_b (without merge.cluster_a m);
        applied =
            rw (at_a_m, at_b_m, (==_iff (length (ma ++ mb)) merge.size).1 long, apply_merge) refl;
        linked = λ merges.
            join-IsLinked s m low high merge.cluster_a merge.cluster_b merge.size (ma ++ mb) h less
              high_lt low_root ids high_root links merges forest
              (
                long,
                λ l l_lt e.
                    member_of_joined root_of low high l x y ma mb which e (mem_a l l_lt)
                      (mem_b l l_lt),
              );
        kept =
            rw
              (append_assoc ma mb
                (all_members (without merge.cluster_b (without merge.cluster_a m))))
              (Perm.trans
                (Perm.append_left ma
                  (all_members-without merge.cluster_b (without merge.cluster_a m) mb left_b))
                (all_members-without merge.cluster_a m ma at_a_m));
        chained = λ near back all. (
          append-IsChained Near ma mb x y
              (members_at-IsChained Near merge.cluster_a m ma at_a_m all)
              (members_at-IsChained Near merge.cluster_b m mb at_b_m all) (mem_a x x_lt refl)
              (mem_b y y_lt refl) near back,
          without-AllChained Near merge.cluster_b (without merge.cluster_a m)
              (without-AllChained Near merge.cluster_a m all),
        );
      }
