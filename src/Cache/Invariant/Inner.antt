-- ===== src/Cache/Invariant/Inner.antt =====
-- The invariant of the map and the usage list (src/cache.rs), and the steps that only remove.
use mathlib.Core.List.Nodup
use mathlib.Core.List.Perm
use mathlib.Core.List.Sublist
use mathlib.Core.List.{Mem, Nodup, Perm, Sublist, erase-sublist, erase-cons-head}
use bo_srv_rs.Common.{
  ℕ, ◌+◌, ◌≤◌, ◌<◌, max, List, [], ◌∷◌, Option, none, some, ◌≡◌, refl, ap, arith, length,
  length-map, length-perm,
}
use bo_srv_rs.Cache.Defs.{
  CacheEntry, Inner, ObjectCache, Store, remove, drop_key, drop_keys, remove_oldest_entry, expired,
  clean_expired, cleanup, make_room, seconds,
}
use bo_srv_rs.Cache.Keys.{keys, cell_numbers, keys-remove, remove-sublist}

-- The usage list holds exactly the keys of the map, each once.
pub record IsConsistent {K : Type 0} (i : Inner K) : Type 0 where
  pub same_keys : Perm i.keys (keys i.cache)
  pub no_repeat : Nodup i.keys

-- A bound of 0 lets one entry in, since the entry of the call itself is always stored.
abbrev pub WithinSize : Option ℕ → ℕ → Type 0
WithinSize none n = Unit
WithinSize (some size) n = n ≤ max 1 size

pub record IsValid {K C : Type 0} (c : ObjectCache) (s : Store K C) : Type 0 where
  pub consistent : IsConsistent s.inner
  pub bounded : WithinSize c.size (length s.inner.cache)
  pub counted : s.inner.total_hit_count ≤ s.inner.total_count
  pub allocated : (p : K × CacheEntry) → Mem p s.inner.cache → p.1.cell < s.next
  pub separate : Nodup (cell_numbers s.inner.cache)

-- `j` is `i` with entries removed.
pub record Shrinks {K : Type 0} (i j : Inner K) : Type 0 where
  pub consistent : IsConsistent j
  pub sub : Sublist j.cache i.cache
  pub shorter : length j.cache ≤ length i.cache
  pub hits : j.total_hit_count ≡ i.total_hit_count
  pub count : j.total_count ≡ i.total_count

module _ {K : Type 0} where
  pub length-cache : (i : Inner K) → IsConsistent i → length i.cache ≡ length i.keys
  length-cache i h =
      omega (arith, length-perm i.keys (keys i.cache) h.same_keys, length-map (λ e. e.0) i.cache)

  pub Shrinks-refl : (i : Inner K) → IsConsistent i → Shrinks i i
  Shrinks-refl i h = record {
    consistent = h;
    sub = Sublist.refl i.cache;
    shorter = omega arith;
    hits = refl;
    count = refl;
  }

  pub Shrinks-trans : {i j k : Inner K} → Shrinks i j → Shrinks j k → Shrinks i k
  Shrinks-trans f g = record {
    consistent = g.consistent;
    sub = Sublist.trans g.sub f.sub;
    shorter = omega arith;
    hits = omega arith;
    count = omega arith;
  }

module _ {K : Type 0} (dec : Discrete K) where
  pub length-remove-le : (k : K) (m : List (K × CacheEntry)) → length (remove dec k m) ≤ length m
  unfolding remove
  length-remove-le k [] = omega arith
  length-remove-le k (e ∷ m) = ground (arith, length-remove-le k m)

  pub drop_key-Shrinks : (k : K) (i : Inner K) → IsConsistent i → Shrinks i (drop_key dec k i)
  unfolding drop_key
  drop_key-Shrinks k i h = record {
    consistent = record {
      same_keys = rw (keys-remove dec k i.cache) (Perm.erase dec k h.same_keys);
      no_repeat = Nodup.sublist (erase-sublist dec k) h.no_repeat;
    };
    sub = remove-sublist dec k i.cache;
    shorter = length-remove-le k i.cache;
    hits = refl;
    count = refl;
  }

  pub drop_keys-Shrinks :
      (ks : List K) (i : Inner K) → IsConsistent i → Shrinks i (drop_keys dec ks i)
  unfolding drop_keys
  drop_keys-Shrinks [] i h = Shrinks-refl i h
  drop_keys-Shrinks (k ∷ ks) i h =
      let first = drop_key-Shrinks k i h in
      Shrinks-trans first (drop_keys-Shrinks ks (drop_key dec k i) first.consistent)

  oldest-drop_key :
      (k : K) (ks : List K) (i : Inner K)
      → i.keys ≡ k ∷ ks
      → remove_oldest_entry dec i ≡ drop_key dec k i
  unfolding remove_oldest_entry drop_key
  oldest-drop_key k ks i e = rw (e, remove_oldest_entry) (ground (arith, erase-cons-head dec k ks))

  keys_oldest :
      (k : K) (ks : List K) (i : Inner K) → i.keys ≡ k ∷ ks → (remove_oldest_entry dec i).keys ≡ ks
  unfolding remove_oldest_entry
  keys_oldest k ks i e = rw (e, remove_oldest_entry)

  oldest_empty : (i : Inner K) → i.keys ≡ [] → remove_oldest_entry dec i ≡ i
  unfolding remove_oldest_entry
  oldest_empty i e = ground arith

  pub remove_oldest-Shrinks : (i : Inner K) → IsConsistent i → Shrinks i (remove_oldest_entry dec i)
  remove_oldest-Shrinks i h = go i.keys refl
    where
      go : (ks : List K) → i.keys ≡ ks → Shrinks i (remove_oldest_entry dec i)
      go [] e = rw (oldest_empty i e) (Shrinks-refl i h)
      go (k ∷ ks) e = rw (oldest-drop_key k ks i e) (drop_key-Shrinks k i h)

  -- One entry goes, if there is one.
  pub length-remove_oldest :
      (i : Inner K)
      → IsConsistent i
      → length (remove_oldest_entry dec i).cache + 1 ≤ max 1 (length i.cache)
  length-remove_oldest i h = go i.keys refl
    where
      go :
          (ks : List K)
          → i.keys ≡ ks
          → length (remove_oldest_entry dec i).cache + 1 ≤ max 1 (length i.cache)
      go [] e = rw (oldest_empty i e) (omega (arith, length-cache i h, ap length e))
      go (k ∷ ks) e = omega (
        arith,
        length-cache i h,
        ap length e,
        length-cache (remove_oldest_entry dec i) (remove_oldest-Shrinks i h).consistent,
        ap length (keys_oldest k ks i e),
      )

  pub cleanup-Shrinks :
      (c : ObjectCache) (now : ℕ) (i : Inner K) → IsConsistent i → Shrinks i (cleanup dec c now i)
  unfolding cleanup clean_expired
  cleanup-Shrinks c now i h =
      let swept = drop_keys-Shrinks (expired dec (seconds now) i.cache) i h in
      ground (arith, swept, Shrinks-refl i h)

  pub make_room-Shrinks :
      (c : ObjectCache) (i : Inner K) → IsConsistent i → Shrinks i (make_room dec c i)
  unfolding make_room
  make_room-Shrinks c i h = ground (arith, remove_oldest-Shrinks i h, Shrinks-refl i h)
