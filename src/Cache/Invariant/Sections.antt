-- ===== src/Cache/Invariant/Sections.antt =====
-- The locked sections of `get_result_at` and `clear` keep the invariant (src/cache.rs).
use mathlib.Core.List.Nodup
use mathlib.Core.List.Perm
use mathlib.Core.List.Sublist
use mathlib.Core.Logic.Or
use mathlib.Core.List.{Mem, Nodup-cons, Nodup-nil, mem-cons, mem-map_of_mem, not-mem-nil}
use native.Mathlib.Bridge.{le_prop}
use bo_srv_rs.Common.{ℕ, ◌+◌, ◌<◌, [], ap, arith, inl, inr, Option-cases}
use bo_srv_rs.Common.Result.{Result}
use bo_srv_rs.Cache.Defs.{
  CacheEntry, ObjectCache, Store, OnceCell, drop_key, cleanup, make_room, seconds, insert,
  track_usage, valid_entry, claim_hit, claim_miss, count_call, claim, drive, retire, clear, is_some,
}
use bo_srv_rs.Cache.Keys.{remove-sublist, lookup-mem}
use bo_srv_rs.Cache.Invariant.Inner.{IsValid, drop_key-Shrinks, cleanup-Shrinks, make_room-Shrinks}
use bo_srv_rs.Cache.Invariant.Parts.{
  cells-sublist, Shrinks-IsValid, track_insert-IsConsistent, bounded_insert, valid_entry-lookup,
  tracked, tracked-IsConsistent, tracked_same, fresh-not-mem,
}

module _ {K C V E : Type 0} (dec : Discrete K) (once : OnceCell C (Result V E))
    (c : ObjectCache) where
  count_call-IsValid :
      (now : ℕ) (s : Store K C)
      → IsValid c s
      → IsValid c (count_call dec once c now s)
        × ((count_call dec once c now s).inner.total_hit_count
            < (count_call dec once c now s).inner.total_count)
  unfolding count_call
  count_call-IsValid now s v =
      let swept = cleanup-Shrinks dec c now s.inner v.consistent in
      let w = Shrinks-IsValid c s (cleanup dec c now s.inner) v swept in
      (
        record {
          consistent = record {
            same_keys = w.consistent.same_keys;
            no_repeat = w.consistent.no_repeat;
          };
          bounded = w.bounded;
          counted = omega (arith, w.counted);
          allocated = w.allocated;
          separate = w.separate;
        },
        omega (arith, w.counted),
      )

  claim_hit-IsValid :
      (k : K) (e : CacheEntry) (s : Store K C)
      → IsValid c s
      → s.inner.total_hit_count < s.inner.total_count
      → Mem (k, e) s.inner.cache
      → IsValid c (claim_hit dec once c k e s)
  unfolding claim_hit tracked
  claim_hit-IsValid k e s v lt m =
      let b = is_some c.size in
      let same = tracked_same dec k s.inner b in
      let con = tracked-IsConsistent dec k s.inner b v.consistent (mem-map_of_mem (λ e. e.0) m) in
      record {
        consistent = record { same_keys = con.same_keys; no_repeat = con.no_repeat };
        bounded = rw same.0 v.bounded;
        counted = ground (arith, same.1, same.2);
        allocated = rw same.0 v.allocated;
        separate = rw same.0 v.separate;
      }

  claim_miss-IsValid :
      (k : K) (t : ℕ) (s : Store K C) → IsValid c s → IsValid c (claim_miss dec once c k t s)
  unfolding claim_miss track_usage insert
  claim_miss-IsValid k t s v =
      let j = make_room dec c s.inner in
      let room = make_room-Shrinks dec c s.inner v.consistent in
      let w = Shrinks-IsValid c s j v room in
      let e : CacheEntry = record { expires = t + c.ttl_seconds; cell = s.next } in
      let con = track_insert-IsConsistent dec k e j room.consistent in
      record {
        consistent = record { same_keys = con.same_keys; no_repeat = con.no_repeat };
        bounded = bounded_insert dec c k e s.inner v.consistent v.bounded;
        counted = omega (arith, v.counted, room.hits, room.count);
        allocated = λ p m.
            Or.elim le_prop (mem-cons.0 m) (λ here. omega (arith, ap (λ q. q.1.cell) here))
              (λ later.
                omega
                  (arith, w.allocated p (Sublist.subset (remove-sublist dec k j.cache) p later)));
        separate = Nodup-cons.1 (
          fresh-not-mem dec k s.next j.cache w.allocated,
          Nodup.sublist (cells-sublist (remove-sublist dec k j.cache)) w.separate,
        );
      }

  pub retire-IsValid :
      (k : K) (e : CacheEntry) (s : Store K C) → IsValid c s → IsValid c (retire dec once k e s)
  unfolding retire
  retire-IsValid k e s v =
      let dropped =
        Shrinks-IsValid c s (drop_key dec k s.inner) v
          (drop_key-Shrinks dec k s.inner v.consistent) in
      ground (arith, dropped, v)

  -- The locked section in front of the producer keeps the invariant, on a hit and on a miss.
  pub claim-IsValid :
      (k : K) (now : ℕ) (s : Store K C) → IsValid c s → IsValid c (claim dec once c k now s).0
  unfolding claim
  claim-IsValid k now s v =
      let s1 = count_call dec once c now s in
      let (v1, lt) = count_call-IsValid now s v in
      elim (Option-cases (valid_entry dec k (seconds now) s1.inner)) [
        | inl miss ↦ rw (miss, claim) (claim_miss-IsValid k (seconds now) s1 v1)
        | inr (e, hit) ↦
            rw (hit, claim)
              (claim_hit-IsValid k e s1 v1 lt (
                lookup-mem dec k s1.inner.cache
                  (valid_entry-lookup dec k (seconds now) s1.inner hit)))
      ]

  pub drive-IsValid :
      (e : CacheEntry) (r : Result V E) (s : Store K C)
      → IsValid c s
      → IsValid c (drive dec once e r s).0
  unfolding drive
  drive-IsValid e r s v = record {
    consistent = v.consistent;
    bounded = v.bounded;
    counted = v.counted;
    allocated = v.allocated;
    separate = v.separate;
  }

  pub clear-IsValid : (s : Store K C) → IsValid c (clear s)
  unfolding clear
  clear-IsValid s = record {
    consistent = record { same_keys = Perm.refl []; no_repeat = Nodup-nil };
    bounded = ground arith;
    counted = omega arith;
    allocated = λ p m. absurd (not-mem-nil m);
    separate = Nodup-nil;
  }
