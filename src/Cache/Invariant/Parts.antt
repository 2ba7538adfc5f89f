-- ===== src/Cache/Invariant/Parts.antt =====
-- The parts of the locked sections of src/cache.rs: usage, room, and removals.
use mathlib.Core.List
use mathlib.Core.List.Nodup
use mathlib.Core.List.Perm
use mathlib.Core.List.Sublist
use mathlib.Core.List.{
  Mem, Nodup, Nodup-cons, Nodup-nil, Perm, Sublist, erase, lookup, mem-cons, mem-map_of_mem,
  not-mem-nil, exists_of_mem-map, filter_map-eq-map, perm_cons_erase,
}
use mathlib.Core.Logic.{∥∥₁_elim}
use mathlib.Core.HLevel.{⊥_prop}
use bo_srv_rs.Common.{
  ℕ, ◌≤◌, ◌<◌, Bool, true, false, List, [], Option, none, some, ◌≡◌, refl, arith, length,
  if◌then◌else◌,
}
use bo_srv_rs.Cache.Defs.{
  CacheEntry, Inner, ObjectCache, Store, remove, make_room, insert, track_usage, valid_entry, empty,
  remove_oldest_entry,
}
use bo_srv_rs.Cache.Keys.{keys, cell_numbers, keys-remove, remove-sublist, track-perm, track-Nodup}
use bo_srv_rs.Cache.Invariant.Inner.{
  IsConsistent, WithinSize, IsValid, Shrinks, length-remove-le, length-remove_oldest,
}

pub cells-filter_map :
    {K : Type 0} (m : List (K × CacheEntry))
    → List.filter_map (λ (e : K × CacheEntry). some e.1.cell) m ≡ cell_numbers m
cells-filter_map m = filter_map-eq-map (λ e. e.1.cell) m

pub cells-sublist :
    {K : Type 0} {m m' : List (K × CacheEntry)}
    → Sublist m' m
    → Sublist (cell_numbers m') (cell_numbers m)
cells-sublist {m} {m'} h =
    rw (← cells-filter_map m, ← cells-filter_map m') (Sublist.filter_map (λ e. some e.1.cell) h)

pub WithinSize-le : (size : Option ℕ) {m n : ℕ} → m ≤ n → WithinSize size n → WithinSize size m
WithinSize-le none h w = tt
WithinSize-le (some size) h w = omega arith

module _ {K C : Type 0} (c : ObjectCache) where
  -- A section that only removes entries, and changes no cell.
  pub Shrinks-IsValid :
      (s : Store K C) (j : Inner K)
      → IsValid c s
      → Shrinks s.inner j
      → IsValid c (record s { inner = j })
  Shrinks-IsValid s j v h = record {
    consistent = h.consistent;
    bounded = WithinSize-le c.size h.shorter v.bounded;
    counted = omega (arith, v.counted, h.hits, h.count);
    allocated = λ p m. v.allocated p (Sublist.subset h.sub p m);
    separate = Nodup.sublist (cells-sublist h.sub) v.separate;
  }

  pub empty-IsValid : (new : C) → IsValid c (empty {K = K} new)
  empty-IsValid new = record {
    consistent = record { same_keys = Perm.refl []; no_repeat = Nodup-nil };
    bounded = ground arith;
    counted = omega arith;
    allocated = λ p m. absurd (not-mem-nil m);
    separate = Nodup-nil;
  }

module _ {K : Type 0} (dec : Discrete K) where
  pub track-same_keys :
      (k : K) (i : Inner K)
      → IsConsistent i
      → Mem k (keys i.cache)
      → IsConsistent (track_usage dec k i)
  unfolding track_usage
  track-same_keys k i h m = record {
    same_keys = Perm.trans (track-perm dec k i.keys) (
        Perm.trans (Perm.symm (perm_cons_erase dec (Perm.subset (Perm.symm h.same_keys) k m)))
          h.same_keys);
    no_repeat = track-Nodup dec k i.keys h.no_repeat;
  }

  pub track_insert-IsConsistent :
      (k : K) (e : CacheEntry) (i : Inner K)
      → IsConsistent i
      → IsConsistent (record (track_usage dec k i) { cache = insert dec k e i.cache })
  unfolding track_usage insert
  track_insert-IsConsistent k e i h = record {
    same_keys =
        rw (keys-remove dec k i.cache)
          (Perm.trans (track-perm dec k i.keys) (Perm.cons k (Perm.erase dec k h.same_keys)));
    no_repeat = track-Nodup dec k i.keys h.no_repeat;
  }

  -- A miss makes room before it stores its entry.
  pub bounded_insert :
      (c : ObjectCache) (k : K) (e : CacheEntry) (i : Inner K)
      → IsConsistent i
      → WithinSize c.size (length i.cache)
      → WithinSize c.size (length (insert dec k e (make_room dec c i).cache))
  unfolding insert make_room
  bounded_insert c k e i h w = ground (
    arith,
    length-remove-le dec k (make_room dec c i).cache,
    length-remove-le dec k i.cache,
    length-remove-le dec k (remove_oldest_entry dec i).cache,
    length-remove_oldest dec i h,
  )

  pub valid_entry-lookup :
      (k : K) (t : ℕ) (i : Inner K) {e : CacheEntry}
      → valid_entry dec k t i ≡ some e
      → lookup dec k i.cache ≡ some e
  unfolding valid_entry
  valid_entry-lookup k t i h = ground arith

  module _ (k : K) (i : Inner K) where
    unfoldable pub tracked : Bool → Inner K
    tracked b = if b then track_usage dec k i else i

    pub tracked-IsConsistent :
        (b : Bool) → IsConsistent i → Mem k (keys i.cache) → IsConsistent (tracked b)
    unfolding tracked
    tracked-IsConsistent true h m = track-same_keys k i h m
    tracked-IsConsistent false h m = h

    pub tracked_same :
        (b : Bool)
        → ((tracked b).cache ≡ i.cache)
          × ((tracked b).total_count ≡ i.total_count)
          × ((tracked b).total_hit_count ≡ i.total_hit_count)
    unfolding tracked track_usage
    tracked_same true = (refl, refl, refl)
    tracked_same false = (refl, refl, refl)

  pub fresh-not-mem :
      (k : K) (n : ℕ) (m : List (K × CacheEntry))
      → ((p : K × CacheEntry) → Mem p m → p.1.cell < n)
      → ¬ Mem n (cell_numbers (remove dec k m))
  fresh-not-mem k n m below h = ∥∥₁_elim (exists_of_mem-map h) ⊥_prop impossible
    where
      impossible : (p : K × CacheEntry) × Mem p (remove dec k m) × (p.1.cell ≡ n) → ⊥
      impossible (p, at, e) =
          omega (arith, below p (Sublist.subset (remove-sublist dec k m) p at), e)
