-- ===== src/Cache/Flight/Sharing.antt =====
-- Which entry a call of `get_result_at` gets, and which entries of other keys it leaves in the
-- map (src/cache.rs).
use mathlib.Core.List.{lookup, head?}
use bo_srv_rs.Common.{
  ℕ, ◌+◌, ◌<◌, true, false, List, [], ◌∷◌, none, some, ◌≡◌, ◌≢◌, refl, ◌∙◌, ◌⊎◌, arith, inl, inr,
  Option-cases, lt→ltb,
}
use bo_srv_rs.Common.Result.{Result}
use bo_srv_rs.Cache.Defs.{
  CacheEntry, Inner, ObjectCache, Store, OnceCell, claim, claim_hit, claim_miss, count_call,
  valid_entry, seconds, cleanup, insert, track_usage, make_room, remove_oldest_entry, is_valid,
}
use bo_srv_rs.Cache.Keys.{lookup-remove_ne}
use bo_srv_rs.Cache.Expiry.{lookup-cleanup}
use bo_srv_rs.Cache.Invariant.{IsValid, valid_entry-lookup}

module _ {K : Type 0} (dec : Discrete K) where
  lookup-insert_self :
      (k : K) (e : CacheEntry) (m : List (K × CacheEntry))
      → lookup dec k (insert dec k e m) ≡ some e
  unfolding insert lookup
  lookup-insert_self k e m = ground arith

  lookup-insert_ne :
      (k q : K) (e : CacheEntry) (m : List (K × CacheEntry))
      → q ≢ k
      → lookup dec q (insert dec k e m) ≡ lookup dec q m
  unfolding insert lookup
  lookup-insert_ne k q e m h = ground (arith, lookup-remove_ne dec k q m h)

  lookup-make_room :
      (c : ObjectCache) (q : K) (i : Inner K)
      → head? i.keys ≢ some q
      → lookup dec q (make_room dec c i).cache ≡ lookup dec q i.cache
  unfolding make_room remove_oldest_entry
  lookup-make_room c q i h = go i.keys refl
    where
      go :
          (ks : List K)
          → i.keys ≡ ks
          → lookup dec q (make_room dec c i).cache ≡ lookup dec q i.cache
      go [] e = ground arith
      go (k ∷ ks) e = ground (arith, lookup-remove_ne dec k q i.cache)

module _ {K C V E : Type 0} (dec : Discrete K) (once : OnceCell C (Result V E))
    (c : ObjectCache) where
  -- An entry that is in the map and has not expired at the time of a call is the entry that the
  -- call gets, as a hit; this holds whether or not its result is there yet.
  pub claim_shared :
      (k : K) (now : ℕ) (s : Store K C) (e : CacheEntry)
      → IsValid c s
      → lookup dec k s.inner.cache ≡ some e
      → seconds now < e.expires
      → (claim dec once c k now s).1 ≡ (e, true)
  unfolding claim valid_entry count_call
  claim_shared k now s e v found lt =
      let fresh : is_valid e (seconds now) ≡ true = lt→ltb (seconds now) e.expires lt in
      ground (arith, lookup-cleanup dec c now k s.inner e v.consistent found lt)

  pub cache-claim_hit :
      (k : K) (e : CacheEntry) (s : Store K C)
      → (claim_hit dec once c k e s).inner.cache ≡ s.inner.cache
  unfolding claim_hit track_usage
  cache-claim_hit k e s = ground arith

  lookup-claim_miss :
      (k : K) (t : ℕ) (s : Store K C)
      → lookup dec k (claim_miss dec once c k t s).inner.cache
        ≡ some (record { expires = t + c.ttl_seconds; cell = s.next })
  unfolding claim_miss track_usage
  lookup-claim_miss k t s =
      lookup-insert_self dec k (record { expires = t + c.ttl_seconds; cell = s.next })
        (make_room dec c s.inner).cache

  -- The entry that a call gets is the entry of its key in the map.
  pub lookup-claim :
      (k : K) (now : ℕ) (s : Store K C)
      → lookup dec k (claim dec once c k now s).0.inner.cache ≡ some (claim dec once c k now s).1.0
  unfolding claim
  lookup-claim k now s =
      let s1 = count_call dec once c now s in
      elim (Option-cases (valid_entry dec k (seconds now) s1.inner)) [
        | inl miss ↦ rw (miss, claim) (lookup-claim_miss k (seconds now) s1)
        | inr (e, hit) ↦
            rw (hit, claim)
              (rw (cache-claim_hit k e s1) (valid_entry-lookup dec k (seconds now) s1.inner hit))
      ]

  -- What a call gets: on a hit an entry that was in the map and has not expired at the time of
  -- the call; on a miss a new entry with an empty cell that no entry has had before, which
  -- expires the time to live after the call.
  pub claim_entry :
      (k : K) (now : ℕ) (s : Store K C)
      → let (s', (e, hit)) = claim dec once c k now s in
        ((hit ≡ true) × (seconds now < e.expires))
        ⊎ ((hit ≡ false)
            × (e.expires ≡ seconds now + c.ttl_seconds)
            × (e.cell ≡ s.next)
            × (once.get (s'.cells e.cell) ≡ none))
  unfolding claim claim_miss count_call valid_entry
  claim_entry k now s = ground (arith, once.get-new)

  lookup-claim_miss_ne :
      (k q : K) (t : ℕ) (s : Store K C)
      → q ≢ k
      → head? s.inner.keys ≢ some q
      → lookup dec q (claim_miss dec once c k t s).inner.cache ≡ lookup dec q s.inner.cache
  unfolding claim_miss track_usage
  lookup-claim_miss_ne k q t s ne kept =
      lookup-insert_ne dec k q (record { expires = t + c.ttl_seconds; cell = s.next })
        (make_room dec c s.inner).cache ne
      ∙ lookup-make_room dec c q s.inner kept

  -- A call keeps every entry of another key that has not expired at the time of the call,
  -- unless its key is at the front of the usage list, the least recently used one, when the
  -- expired entries have been swept.
  pub claim_keeps :
      (k q : K) (now : ℕ) (s : Store K C) (e : CacheEntry)
      → IsValid c s
      → lookup dec q s.inner.cache ≡ some e
      → seconds now < e.expires
      → q ≢ k
      → head? (cleanup dec c now s.inner).keys ≢ some q
      → lookup dec q (claim dec once c k now s).0.inner.cache ≡ some e
  unfolding claim
  claim_keeps k q now s e v found lt ne kept =
      let s1 = count_call dec once c now s in
      let swept : lookup dec q s1.inner.cache ≡ some e =
        unfold count_call in lookup-cleanup dec c now q s.inner e v.consistent found lt in
      let front : head? s1.inner.keys ≢ some q = unfold count_call in kept in
      elim (Option-cases (valid_entry dec k (seconds now) s1.inner)) [
        | inl miss ↦ rw (miss, claim) (lookup-claim_miss_ne k q (seconds now) s1 ne front ∙ swept)
        | inr (x, hit) ↦ rw (hit, claim) (rw (cache-claim_hit k x s1) swept)
      ]
