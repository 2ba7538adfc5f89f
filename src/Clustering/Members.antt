-- ===== src/Clustering/Members.antt =====
-- The members of clusters (src/clustering/base.rs) up to order, and the order by the smallest one.
use mathlib.Core.List.Perm
use mathlib.Core.List.{Perm, Permᴰ, Perm-prop, perm-append_left_iff, perm_append_comm}
use mathlib.Core.Logic.{∥∥₁_elim}
use bo_srv_rs.Common.{
  ℕ, true, false, List, [], ◌∷◌, ◌++◌, Option, none, some, map, ◌≡◌, refl, sym, ap, subst, arith,
  get_elem?, append_assoc,
}
use bo_srv_rs.Common.Sort.{IsWeakOrder}
use bo_srv_rs.Clustering.Shapes.{
  ClusterShape, remove_at, set_at, smallest, key_lt, members_lt, by_smallest,
}
use bo_srv_rs.Clustering.Elements.{remove_at-perm, set_at-perm}

-- All the members, cluster by cluster.
abbrev pub members_of : {F : Type 0} → List (ClusterShape F) → List ℕ
members_of [] = []
members_of (c ∷ cs) = c.members ++ members_of cs

-- All the members, list by list.
abbrev pub all_of : List (List ℕ) → List ℕ
all_of [] = []
all_of (ms ∷ mss) = ms ++ all_of mss

all_of-permᴰ : {xs ys : List (List ℕ)} → Permᴰ xs ys → Perm (all_of xs) (all_of ys)
all_of-permᴰ Permᴰ.nil = Perm.refl []
all_of-permᴰ (Permᴰ.cons {a} {b} {l₁} {l₂} e p) =
    subst (λ x. Perm (a ++ all_of l₁) (x ++ all_of l₂)) e (Perm.append_left a (all_of-permᴰ p))
all_of-permᴰ (Permᴰ.swap {a} {b} {a'} {b'} {l} e f) =
    rw (sym e, sym f, sym (append_assoc a b (all_of l)), sym (append_assoc b a (all_of l)))
      (Perm.append_right (all_of l) (perm_append_comm a b))
all_of-permᴰ (Permᴰ.trans p q) = Perm.trans (all_of-permᴰ p) (all_of-permᴰ q)

pub all_of-perm : (xs ys : List (List ℕ)) → Perm xs ys → Perm (all_of xs) (all_of ys)
all_of-perm xs ys p = ∥∥₁_elim p Perm-prop all_of-permᴰ

module _ {F : Type 0} where
  members_of-map : (cs : List (ClusterShape F)) → all_of (map (λ c. c.members) cs) ≡ members_of cs
  members_of-map [] = refl
  members_of-map (c ∷ cs) = ap (λ ms. c.members ++ ms) (members_of-map cs)

  pub members_of-perm :
      (cs ds : List (ClusterShape F)) → Perm cs ds → Perm (members_of cs) (members_of ds)
  members_of-perm cs ds p =
      rw (sym (members_of-map cs), sym (members_of-map ds))
        (all_of-perm (map (λ c. c.members) cs) (map (λ c. c.members) ds)
          (Perm.map (λ c. c.members) p))

  -- Two elements become one, with the members of both.
  pub members_of-merged :
      (cs : List (ClusterShape F)) (i j : ℕ) {c o : ClusterShape F} (n : ClusterShape F)
      → get_elem? cs j ≡ some o
      → get_elem? (remove_at j cs) i ≡ some c
      → Perm n.members (c.members ++ o.members)
      → Perm (members_of (set_at i n (remove_at j cs))) (members_of cs)
  members_of-merged cs i j {c} {o} n at_j at_i p =
      let rest = remove_at j cs in
      let put = members_of-perm (c ∷ set_at i n rest) (n ∷ rest) (set_at-perm rest i n at_i) in
      let taken = members_of-perm (o ∷ rest) cs (remove_at-perm cs j at_j) in
      let split = Perm.trans put (Perm.append_right (members_of rest) p) in
      Perm.trans
        ((perm-append_left_iff c.members).0
          (rw (sym (append_assoc c.members o.members (members_of rest))) split))
        taken

key_lt_asym : (a b : Option ℕ) → key_lt a b ≡ true → key_lt b a ≡ false
key_lt_asym none none h = refl
key_lt_asym none (some n) h = refl
key_lt_asym (some m) none h = cc
key_lt_asym (some m) (some n) h = ground (arith, h)

key_lt_neg_trans : (a b c : Option ℕ) → key_lt b a ≡ false → key_lt c b ≡ false → key_lt c a ≡ false
key_lt_neg_trans none none none h k = refl
key_lt_neg_trans none none (some c) h k = refl
key_lt_neg_trans none (some b) none h k = refl
key_lt_neg_trans none (some b) (some c) h k = refl
key_lt_neg_trans (some a) none c h k = cc
key_lt_neg_trans (some a) (some b) none h k = k
key_lt_neg_trans (some a) (some b) (some c) h k = ground (arith, h, k)

pub members_lt-IsWeakOrder : IsWeakOrder members_lt
members_lt-IsWeakOrder = record {
  asym = λ a b. key_lt_asym (smallest a) (smallest b);
  neg_trans = λ a b c. key_lt_neg_trans (smallest a) (smallest b) (smallest c);
}

pub by_smallest-IsWeakOrder : {F : Type 0} → IsWeakOrder (by_smallest {F = F})
by_smallest-IsWeakOrder = record {
  asym = λ a b. key_lt_asym (smallest a.members) (smallest b.members);
  neg_trans =
      λ a b c. key_lt_neg_trans (smallest a.members) (smallest b.members) (smallest c.members);
}
