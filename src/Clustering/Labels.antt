-- ===== src/Clustering/Labels.antt =====
-- The map from labels to members (src/clustering/base.rs) under `remove`, and the chains between
-- the members of a cluster.
use mathlib.Core.List.Perm
use mathlib.Core.List.{Perm, Memᴰ, perm_append_comm}
use bo_srv_rs.Common.{
  ℕ, List, [], ◌∷◌, ◌++◌, some, ◌≡◌, ◌≢◌, refl, sym, arith, ◌==◌, All, All-imp, All-append,
  append_assoc, inl, inr, Bool-cases, subst,
}
use bo_srv_rs.Clustering.Elements.{All-memᴰ}
use bo_srv_rs.Clustering.Clusters.{Labelled, members_at, without}

-- All the members of a map.
abbrev pub all_members : Labelled → List ℕ
all_members [] = []
all_members ((_, ms) ∷ m) = ms ++ all_members m

pub members_at_head : (k : ℕ) (ms : List ℕ) (m : Labelled) → members_at k ((k, ms) ∷ m) ≡ some ms
unfolding members_at
members_at_head k ms m = ground arith

pub members_at_tail :
    (k l : ℕ) (ms : List ℕ) (m : Labelled) → k ≢ l → members_at k ((l, ms) ∷ m) ≡ members_at k m
unfolding members_at
members_at_tail k l ms m h = ground (arith, h)

pub all_members-without :
    (k : ℕ) (m : Labelled) (ms : List ℕ)
    → members_at k m ≡ some ms
    → Perm (ms ++ all_members (without k m)) (all_members m)
unfolding members_at without
all_members-without k [] ms e = cc
all_members-without k ((l, ns) ∷ m) ms e = elim (Bool-cases (l == k)) [
  | inl found ↦
      let same : ns ≡ ms = ground (arith, e, found) in
      rw (found, without)
        (subst (λ x. Perm (ms ++ all_members m) (x ++ all_members m)) (sym same) (Perm.refl _))
  | inr other ↦
      let rest : members_at k m ≡ some ms = ground (arith, e, other) in
      let swapped = Perm.append_right (all_members (without k m)) (perm_append_comm ms ns) in
      let moved : Perm (ms ++ (ns ++ all_members (without k m)))
          (ns ++ (ms ++ all_members (without k m))) =
        rw
          (
            sym (append_assoc ms ns (all_members (without k m))),
            sym (append_assoc ns ms (all_members (without k m))),
          )
          swapped in
      rw (other, without) (Perm.trans moved (Perm.append_left ns (all_members-without k m ms rest)))
]

pub members_at-without :
    (k q : ℕ) (m : Labelled) → q ≢ k → members_at q (without k m) ≡ members_at q m
unfolding members_at without
members_at-without k q [] h = refl
members_at-without k q ((l, ms) ∷ m) h = ground (arith, h, members_at-without k q m h)

-- Two numbers with a chain of near ones between them.
pub data Chain (Near : ℕ → ℕ → Type 0) : ℕ → ℕ → Type 0 where
  here : {i : ℕ} → Chain Near i i
  link : {i j k : ℕ} → Near i j → Chain Near j k → Chain Near i k

All-zip :
    (P Q R : ℕ → Type 0)
    → ((x : ℕ) → P x → Q x → R x)
    → (xs : List ℕ) → All P xs
    → All Q xs
    → All R xs
All-zip P Q R f [] hp hq = tt
All-zip P Q R f (x ∷ xs) hp hq = (f x hp.0 hq.0, All-zip P Q R f xs hp.1 hq.1)

module _ (Near : ℕ → ℕ → Type 0) where
  join_chains : {i j k : ℕ} → Chain Near i j → Chain Near j k → Chain Near i k
  join_chains here d = d
  join_chains (link near c) d = link near (join_chains c d)

  -- From every number of the list there is a chain to every other one.
  abbrev pub IsChained : List ℕ → Type 0
  IsChained ms = All (λ x. All (λ y. Chain Near x y) ms) ms

  chains_across :
      (a b : List ℕ) (i j : ℕ)
      → IsChained a
      → IsChained b
      → Memᴰ i a
      → Memᴰ j b
      → Near i j
      → All (λ x. All (λ y. Chain Near x y) b) a
  chains_across a b i j ha hb mi mj near =
      let from_j = All-memᴰ (λ x. All (λ y. Chain Near x y) b) b hb mj in
      All-imp (λ x. All (λ y. Chain Near x y) a) (λ x. All (λ y. Chain Near x y) b)
        (λ x hx.
          All-imp (λ y. Chain Near j y) (λ y. Chain Near x y)
            (λ y c. join_chains (All-memᴰ (λ y. Chain Near x y) a hx mi) (link near c)) b from_j)
        a ha

  pub append-IsChained :
      (a b : List ℕ) (i j : ℕ)
      → IsChained a
      → IsChained b
      → Memᴰ i a
      → Memᴰ j b
      → Near i j
      → Near j i
      → IsChained (a ++ b)
  append-IsChained a b i j ha hb mi mj near back =
      let all = λ (c : List ℕ) (x : ℕ). All (λ y. Chain Near x y) c in
      All-append (all (a ++ b)) a b
        (All-zip (all a) (all b) (all (a ++ b)) (λ x p q. All-append (λ y. Chain Near x y) a b p q)
          a ha (chains_across a b i j ha hb mi mj near))
        (All-zip (all a) (all b) (all (a ++ b)) (λ x p q. All-append (λ y. Chain Near x y) a b p q)
          b (chains_across b a j i hb ha mj mi back) hb)
