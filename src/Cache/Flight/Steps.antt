-- ===== src/Cache/Flight/Steps.antt =====
-- The tasks of the server as interleaved sections of `get_result_at` (src/cache.rs).
use bo_srv_rs.Common.{ℕ, ◌<◌, none, some, ◌≡◌, arith}
use bo_srv_rs.Common.Result.{Result}
use bo_srv_rs.Cache.Defs.{
  CacheEntry, ObjectCache, Store, OnceCell, claim, claim_hit, claim_miss, count_call, drive, retire,
  clear, empty,
}
use bo_srv_rs.Cache.Invariant.{
  IsValid, claim-IsValid, drive-IsValid, retire-IsValid, clear-IsValid, empty-IsValid,
}

module _ {K C V E : Type 0} (dec : Discrete K) (once : OnceCell C (Result V E))
    (c : ObjectCache) where
  -- Any task may run any section at any time: `driven` is a producer that ends, in any task
  -- that holds an entry, and `retired` the cleanup after a failure.
  pub data Step : Store K C → Store K C → Type 0 where
    claimed : (k : K) (now : ℕ) (s : Store K C) → Step s (claim dec once c k now s).0
    driven :
        (e : CacheEntry) (r : Result V E) (s : Store K C)
        → e.cell < s.next
        → Step s (drive dec once e r s).0
    retired : (k : K) (e : CacheEntry) (s : Store K C) → Step s (retire dec once k e s)
    cleared : (s : Store K C) → Step s (clear s)

  pub data Reach (s : Store K C) : Store K C → Type 0 where
    here : Reach s s
    next : {t u : Store K C} → Reach s t → Step t u → Reach s u

  Step-IsValid : {s t : Store K C} → Step s t → IsValid c s → IsValid c t
  Step-IsValid (claimed k now s) v = claim-IsValid dec once c k now s v
  Step-IsValid (driven e r s lt) v = drive-IsValid dec once c e r s v
  Step-IsValid (retired k e s) v = retire-IsValid dec once c k e s v
  Step-IsValid (cleared s) v = clear-IsValid dec once c s

  pub Reach-IsValid_from : {s t : Store K C} → IsValid c s → Reach s t → IsValid c t
  Reach-IsValid_from v here = v
  Reach-IsValid_from v (next r st) = Step-IsValid st (Reach-IsValid_from v r)

  -- However the sections of any number of calls interleave, from an empty cache: the usage list
  -- holds exactly the keys of the map, each once; a cache with a size holds at most that many
  -- entries (one, if the size is 0); the hits counted are at most the calls; and no two keys
  -- share a result cell.
  pub Reach-IsValid : (new : C) {s : Store K C} → Reach (empty new) s → IsValid c s
  Reach-IsValid new r = Reach-IsValid_from (empty-IsValid c new) r

  pub cells-claim :
      (k : K) (now i : ℕ) (s : Store K C)
      → i < s.next
      → ((claim dec once c k now s).0.cells i ≡ s.cells i) × (i < (claim dec once c k now s).0.next)
  unfolding claim claim_hit claim_miss count_call
  cells-claim k now i s lt = ground arith

  Step-filled :
      {s t : Store K C} (i : ℕ) (v : Result V E)
      → Step s t
      → i < s.next
      → once.get (s.cells i) ≡ some v
      → (once.get (t.cells i) ≡ some v) × (i < t.next)
  unfolding drive retire clear
  Step-filled i v (claimed k now s) lt h = ground (arith, cells-claim k now i s lt)
  Step-filled i v (driven e r s _) lt h = ground (arith, once.init_filled (s.cells e.cell) r v)
  Step-filled i v (retired k e s) lt h = ground arith
  Step-filled i v (cleared s) lt h = (h, lt)

  pub Reach-filled :
      {s t : Store K C} (i : ℕ) (v : Result V E)
      → Reach s t
      → i < s.next
      → once.get (s.cells i) ≡ some v
      → (once.get (t.cells i) ≡ some v) × (i < t.next)
  Reach-filled i v here lt h = (h, lt)
  Reach-filled i v (next r st) lt h =
      let before = Reach-filled i v r lt h in Step-filled i v st before.1 before.0

  -- Once the producer of one task has filled the cell of an entry, every task that awaits the
  -- same entry gets that first result, whatever its own producer would return and whatever
  -- sections of other calls have run in between: a producer counts at most once for an entry.
  pub single_flight :
      (s : Store K C) {t : Store K C} (e : CacheEntry) (first mine : Result V E)
      → Reach (drive dec once e first s).0 t
      → e.cell < s.next
      → once.get (s.cells e.cell) ≡ none
      → (drive dec once e mine t).1 ≡ first
  unfolding drive
  single_flight s {t} e first mine r lt empty_cell =
      let filled = once.init_empty (s.cells e.cell) first empty_cell in
      let later = Reach-filled e.cell first r lt (ground (arith, filled)) in
      rw (once.init_filled (t.cells e.cell) mine first later.0, drive)
