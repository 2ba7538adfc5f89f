-- ===== src/Stats/Counter.antt =====
-- The `HashMap<K, u64>` counters of src/stats/aggregate.rs as association lists. A
-- counter counts rows of one file, so that a `u64` does not overflow.
use bo_srv_rs.Common.{ℕ, ◌+◌, Bool, true, List, [], ◌∷◌, ◌≡◌, ◌↔◌, refl, arith, if◌then◌else◌}

abbrev pub Counter : Type 0 → Type 0
Counter K = List (K × ℕ)

module _ {K : Type 0} (eq : K → K → Bool) where
  -- `*counter.entry(key).or_insert(0) += 1`.
  unfoldable pub bump : K → Counter K → Counter K
  bump k [] = (k, 1) ∷ []
  bump k ((j, n) ∷ m) = if eq j k then (j, n + 1) ∷ m else (j, n) ∷ bump k m

  -- The number under a key, 0 if there is none.
  unfoldable pub count_of : K → Counter K → ℕ
  count_of k [] = 0
  count_of k ((j, n) ∷ m) = if eq j k then n else count_of k m

abbrev pub sum_counts : {K : Type 0} → Counter K → ℕ
sum_counts [] = 0
sum_counts ((_, n) ∷ m) = n + sum_counts m

module _ {K : Type 0} (eq : K → K → Bool) (eq_iff : (a b : K) → (eq a b ≡ true) ↔ (a ≡ b)) where
  pub count_of-bump :
      (k j : K) (m : Counter K)
      → count_of eq k (bump eq j m) ≡ count_of eq k m + (if eq j k then 1 else 0)
  unfolding count_of bump
  count_of-bump k j [] = ground arith
  count_of-bump k j ((i, n) ∷ m) =
      ground (arith, eq_iff i j, eq_iff i k, eq_iff j k, count_of-bump k j m)

module _ {K : Type 0} (eq : K → K → Bool) where
  pub sum_counts-bump : (j : K) (m : Counter K) → sum_counts (bump eq j m) ≡ sum_counts m + 1
  unfolding bump
  sum_counts-bump j [] = refl
  sum_counts-bump j ((i, n) ∷ m) = ground (arith, sum_counts-bump j m)
