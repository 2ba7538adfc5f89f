-- ===== src/Service/Keys/Distinct.antt =====
-- A key of the cache tells every value of its request (src/service.rs).
use bo_srv_rs.Common.{
  ℕ, suc, ◌==◌, false, [], ◌∷◌, ◌++◌, Option, none, some, ◌≡◌, ◌↔◌, refl, sym, ap, ◌∙◌, arith, drop,
  All-imp,
}
use bo_srv_rs.Common.Int.{ℤ, pos, negsuc}
use bo_srv_rs.Common.Text.Decimal.{
  Text, print_ℤ, print_ℕ, IsDigit, print_ℕ-All, print_ℕ-StartsWithDigit, StartsWithDigit,
  parse_ℕ-print_ℕ, parse_ℕ,
}
use bo_srv_rs.Common.Text.Fields.{Without}
use bo_srv_rs.Common.Text.Split.{split_once, split_once-append}
use bo_srv_rs.Service.Keys.{
  GridQuery, GlobalGridQuery, LocalGridQuery, GlobalClusterQuery, LocalClusterQuery,
  strikes_grid_key, global_grid_key, local_grid_key, global_clusters_key, local_clusters_key,
}

print_ℕ_injective : (m n : ℕ) → print_ℕ m ≡ print_ℕ n → m ≡ n
print_ℕ_injective m n h =
    let read : some m ≡ some n = sym (parse_ℕ-print_ℕ m) ∙ ap parse_ℕ h ∙ parse_ℕ-print_ℕ n in cc

abbrev first : Text → Option ℕ
first [] = none
first (c ∷ _) = some c

no_minus : (t u : Text) → StartsWithDigit t → t ≡ b'-' ∷ u → ⊥
no_minus [] u d h = d
no_minus (c ∷ t) u d h =
    let at : some c ≡ some b'-' = ap first h in
    let same : c ≡ b'-' = cc in absurd (ground (arith, d, same))

print_ℤ_injective : (a b : ℤ) → print_ℤ a ≡ print_ℤ b → a ≡ b
unfolding print_ℤ
print_ℤ_injective (pos m) (pos n) h = ap pos (print_ℕ_injective m n h)
print_ℤ_injective (pos m) (negsuc n) h =
    absurd (no_minus (print_ℕ m) (print_ℕ (suc n)) (print_ℕ-StartsWithDigit m) h)
print_ℤ_injective (negsuc m) (pos n) h =
    absurd (no_minus (print_ℕ n) (print_ℕ (suc m)) (print_ℕ-StartsWithDigit n) (sym h))
print_ℤ_injective (negsuc m) (negsuc n) h =
    let same : print_ℕ (suc m) ≡ print_ℕ (suc n) = ap (drop 1) h in
    let number = print_ℕ_injective (suc m) (suc n) same in ap negsuc (omega (arith, number))

digits-Without : (n : ℕ) → Without b'|' (print_ℕ n)
digits-Without n =
    All-imp IsDigit (λ c. (c == b'|') ≡ false) (λ c d. ground (arith, d)) (print_ℕ n)
      (print_ℕ-All n)

print_ℤ-Without : (z : ℤ) → Without b'|' (print_ℤ z)
unfolding print_ℤ
print_ℤ-Without (pos n) = digits-Without n
print_ℤ-Without (negsuc n) = (refl, digits-Without (suc n))

-- The first number of two equal texts, and what follows it.
peel :
    (a b : ℤ) (t u : Text) → print_ℤ a ++ (b'|' ∷ t) ≡ print_ℤ b ++ (b'|' ∷ u) → (a ≡ b) × (t ≡ u)
peel a b t u h =
    let split : Path (Option (Text × Text)) (some (print_ℤ a, t)) (some (print_ℤ b, u)) =
      sym (split_once-append b'|' (print_ℤ a) t (print_ℤ-Without a))
      ∙ ap (split_once b'|') h
      ∙ split_once-append b'|' (print_ℤ b) u (print_ℤ-Without b) in
    (print_ℤ_injective a b (cc), cc)

strikes_grid_key_injective : (p q : GridQuery) → strikes_grid_key p ≡ strikes_grid_key q → p ≡ q
unfolding strikes_grid_key
strikes_grid_key_injective p q h =
    let (e0, r0) = peel p.minute_length q.minute_length _ _ (ap (drop 31) h) in
    let (e1, r1) = peel p.grid_base_length q.grid_base_length _ _ (ap (drop 16) r0) in
    let (e2, r2) = peel p.minute_offset q.minute_offset _ _ (ap (drop 14) r1) in
    let (e3, r3) = peel p.region q.region _ _ (ap (drop 7) r2) in
    let e4 = print_ℤ_injective p.count_threshold q.count_threshold (ap (drop 16) r3) in
    ground (arith, e0, e1, e2, e3, e4)

global_grid_key_injective : (p q : GlobalGridQuery) → global_grid_key p ≡ global_grid_key q → p ≡ q
unfolding global_grid_key
global_grid_key_injective p q h =
    let (e0, r0) = peel p.minute_length q.minute_length _ _ (ap (drop 38) h) in
    let (e1, r1) = peel p.grid_base_length q.grid_base_length _ _ (ap (drop 16) r0) in
    let (e2, r2) = peel p.minute_offset q.minute_offset _ _ (ap (drop 14) r1) in
    let e3 = print_ℤ_injective p.count_threshold q.count_threshold (ap (drop 16) r2) in
    ground (arith, e0, e1, e2, e3)

local_grid_key_injective : (p q : LocalGridQuery) → local_grid_key p ≡ local_grid_key q → p ≡ q
unfolding local_grid_key
local_grid_key_injective p q h =
    let (e0, r0) = peel p.x q.x _ _ (ap (drop 25) h) in
    let (e1, r1) = peel p.y q.y _ _ (ap (drop 2) r0) in
    let (e2, r2) = peel p.grid_base_length q.grid_base_length _ _ (ap (drop 16) r1) in
    let (e3, r3) = peel p.minute_length q.minute_length _ _ (ap (drop 14) r2) in
    let (e4, r4) = peel p.minute_offset q.minute_offset _ _ (ap (drop 14) r3) in
    let (e5, r5) = peel p.count_threshold q.count_threshold _ _ (ap (drop 16) r4) in
    let e6 = print_ℤ_injective p.data_area q.data_area (ap (drop 10) r5) in
    ground (arith, e0, e1, e2, e3, e4, e5, e6)

global_clusters_key_injective :
    (p q : GlobalClusterQuery) → global_clusters_key p ≡ global_clusters_key q → p ≡ q
unfolding global_clusters_key
global_clusters_key_injective p q h =
    let (e0, r0) = peel p.minute_length q.minute_length _ _ (ap (drop 34) h) in
    let (e1, r1) = peel p.minute_offset q.minute_offset _ _ (ap (drop 14) r0) in
    let e2 = print_ℤ_injective p.interval_count q.interval_count (ap (drop 15) r1) in
    ground (arith, e0, e1, e2)

local_clusters_key_injective :
    (p q : LocalClusterQuery) → local_clusters_key p ≡ local_clusters_key q → p ≡ q
unfolding local_clusters_key
local_clusters_key_injective p q h =
    let (e0, r0) = peel p.x q.x _ _ (ap (drop 21) h) in
    let (e1, r1) = peel p.y q.y _ _ (ap (drop 2) r0) in
    let (e2, r2) = peel p.minute_length q.minute_length _ _ (ap (drop 14) r1) in
    let (e3, r3) = peel p.minute_offset q.minute_offset _ _ (ap (drop 14) r2) in
    let (e4, r4) = peel p.data_area q.data_area _ _ (ap (drop 10) r3) in
    let e5 = print_ℤ_injective p.interval_count q.interval_count (ap (drop 15) r4) in
    ground (arith, e0, e1, e2, e3, e4, e5)

-- Two requests of one kind share a response of the cache only if all their values, within their
-- limits, are the same: the keys are equal exactly if the values are, for each of the five kinds,
-- whatever the integers are.
pub keys_distinct :
    (g g' : GridQuery) (w w' : GlobalGridQuery) (l l' : LocalGridQuery) (c c' : GlobalClusterQuery)
    (d d' : LocalClusterQuery)
    → ((strikes_grid_key g ≡ strikes_grid_key g') ↔ (g ≡ g'))
      × ((global_grid_key w ≡ global_grid_key w') ↔ (w ≡ w'))
      × ((local_grid_key l ≡ local_grid_key l') ↔ (l ≡ l'))
      × ((global_clusters_key c ≡ global_clusters_key c') ↔ (c ≡ c'))
      × ((local_clusters_key d ≡ local_clusters_key d') ↔ (d ≡ d'))
keys_distinct g g' w w' l l' c c' d d' = (
  (strikes_grid_key_injective g g', ap strikes_grid_key),
  (global_grid_key_injective w w', ap global_grid_key),
  (local_grid_key_injective l l', ap local_grid_key),
  (global_clusters_key_injective c c', ap global_clusters_key),
  (local_clusters_key_injective d d', ap local_clusters_key),
)
