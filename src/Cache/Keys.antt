-- ===== src/Cache/Keys.antt =====
-- The keys of the map and of the usage list (src/cache.rs): what `remove`, `insert` and
-- `track_usage` do to them.
use mathlib.Core.List.Nodup
use mathlib.Core.List.Perm
use mathlib.Core.List.{
  Mem, Nodup, Nodup-cons, Perm, Sublist, erase, erase-sublist, erase_p-sublist, lookup,
  mem-cons_self, mem-cons_of_mem, perm_append_comm,
}
use bo_srv_rs.Common.{ℕ, ◌≤◌, List, [], ◌∷◌, ◌++◌, map, some, ◌≡◌, ◌≢◌, refl, arith, length}
use bo_srv_rs.Cache.Defs.{CacheEntry, remove}

abbrev pub keys : {K : Type 0} → List (K × CacheEntry) → List K
keys = map (λ e. e.0)

abbrev pub cell_numbers : {K : Type 0} → List (K × CacheEntry) → List ℕ
cell_numbers = map (λ e. e.1.cell)

module _ {K : Type 0} (dec : Discrete K) where
  pub keys-remove :
      (k : K) (m : List (K × CacheEntry)) → keys (remove dec k m) ≡ erase dec (keys m) k
  unfolding remove
  keys-remove k [] = refl
  keys-remove k (e ∷ m) = ground (arith, keys-remove k m)

  pub length-erase-le : (k : K) (xs : List K) → length (erase dec xs k) ≤ length xs
  length-erase-le k [] = omega arith
  length-erase-le k (x ∷ xs) = ground (arith, length-erase-le k xs)

  pub lookup-remove_ne :
      (k q : K) (m : List (K × CacheEntry)) → q ≢ k → lookup dec q (remove dec k m) ≡ lookup dec q m
  unfolding lookup remove
  lookup-remove_ne k q [] _ = refl
  lookup-remove_ne k q (e ∷ m) h = ground (arith, lookup-remove_ne k q m)

  pub remove-sublist : (k : K) (m : List (K × CacheEntry)) → Sublist (remove dec k m) m
  unfolding remove
  remove-sublist k m = erase_p-sublist (λ e. dec e.0 k)

  pub lookup-mem :
      (k : K) (m : List (K × CacheEntry)) {e : CacheEntry} → lookup dec k m ≡ some e → Mem (k, e) m
  unfolding lookup
  lookup-mem k [] h = cc
  lookup-mem k (x ∷ m) h = elim (dec k x.0) [
    | yes p ↦ ground (arith, mem-cons_self {a = x} {l = m})
    | no p ↦ mem-cons_of_mem x (lookup-mem k m (ground arith))
  ]

  -- `track_usage` moves a key to the end.
  pub track-perm : (k : K) (ks : List K) → Perm (erase dec ks k ++ k ∷ []) (k ∷ erase dec ks k)
  track-perm k ks = perm_append_comm (erase dec ks k) (k ∷ [])

  pub track-Nodup : (k : K) (ks : List K) → Nodup ks → Nodup (erase dec ks k ++ k ∷ [])
  track-Nodup k ks d = Perm.nodup (Perm.symm (track-perm k ks)) (
      Nodup-cons.1
        (λ m. ((Nodup.mem-erase_iff dec d).0 m).0 refl, Nodup.sublist (erase-sublist dec k) d))
