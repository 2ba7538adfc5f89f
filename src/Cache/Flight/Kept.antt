-- ===== src/Cache/Flight/Kept.antt =====
-- How long an entry of the cache is shared (src/cache.rs): later calls on its key, with any
-- sections of other calls in between.
use mathlib.Core.List.{lookup}
use bo_srv_rs.Common.{ℕ, ◌<◌, false, some, ◌≡◌, ◌≢◌, arith}
use bo_srv_rs.Common.Result.{Result}
use bo_srv_rs.Cache.Defs.{ObjectCache, Store, OnceCell, claim, drive, retire, clear, settle}
use bo_srv_rs.Cache.Invariant.{IsValid}
use bo_srv_rs.Cache.Flight.Steps.{
  Step, Reach, claimed, driven, retired, cleared, here, next, cells-claim,
}
use bo_srv_rs.Cache.Flight.Sharing.{claim_entry, lookup-claim}
use bo_srv_rs.Cache.Flight.Results.{entry-allocated, settle_newer}

module _ {K C V E : Type 0} (dec : Discrete K) (once : OnceCell C (Result V E))
    (c : ObjectCache) where
  Step-next : {s t : Store K C} (i : ℕ) → Step dec once c s t → i < s.next → i < t.next
  unfolding drive retire clear
  Step-next i (claimed k now s) lt = (cells-claim dec once c k now i s lt).1
  Step-next i (driven e r s _) lt = lt
  Step-next i (retired k e s) lt = ground arith
  Step-next i (cleared s) lt = lt

  Reach-next : {s t : Store K C} (i : ℕ) → Reach dec once c s t → i < s.next → i < t.next
  Reach-next i here lt = lt
  Reach-next i (next r st) lt = Step-next i st (Reach-next i r lt)

  -- In a state of the invariant, a task gets an entry and computes; the entry is lost meanwhile
  -- (expired, evicted or cleared), so that a later call on the key is a miss and gets a new
  -- entry. When the first task then ends, well or not, the new entry is still in the map under
  -- the key.
  pub settle-Reach :
      (k : K) (now later : ℕ) (produced : Result V E) (s : Store K C) {t : Store K C}
      → IsValid c s
      → Reach dec once c (claim dec once c k now s).0 t
      → (claim dec once c k later t).1.1 ≡ false
      → let (u, (y, hit)) = claim dec once c k later t in
        lookup dec k (settle dec once k (claim dec once c k now s).1.0 produced u).0.inner.cache
        ≡ some y
  settle-Reach k now later produced s {t} v r miss =
      let e = (claim dec once c k now s).1.0 in
      let older = Reach-next e.cell r (entry-allocated dec once c k now s v) in
      let (u, (y, hit)) = claim dec once c k later t in
      let other : y.cell ≢ e.cell = ground (arith, claim_entry dec once c k later t) in
      settle_newer dec once k e y produced u (lookup-claim dec once c k later t) other
