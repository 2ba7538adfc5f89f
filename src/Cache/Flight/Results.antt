-- ===== src/Cache/Flight/Results.antt =====
-- What a success and a failure of a producer leave behind (src/cache.rs).
use mathlib.Core.List.Perm
use mathlib.Core.List.{lookup}
use bo_srv_rs.Common.{
  ℕ, ◌<◌, true, none, some, ◌≡◌, ◌≢◌, refl, ◌∙◌, arith, inl, inr, Option-cases, ap,
}
use bo_srv_rs.Common.Result.{Result, ok, err, is_err}
use bo_srv_rs.Cache.Defs.{
  CacheEntry, ObjectCache, Store, OnceCell, claim, drive, retire, settle, drop_key, get_result_at,
  fast_path, seconds,
}
use bo_srv_rs.Cache.Keys.{lookup-mem}
use bo_srv_rs.Cache.Expiry.{lookup-remove_self}
use bo_srv_rs.Cache.Invariant.{IsValid, claim-IsValid, drive-IsValid}
use bo_srv_rs.Cache.Flight.Steps.{cells-claim}
use bo_srv_rs.Cache.Flight.Sharing.{claim_shared, lookup-claim}

module _ {K C V E : Type 0} (dec : Discrete K) (once : OnceCell C (Result V E)) where
  lookup-retire :
      (k : K) (e x : CacheEntry) (c : ObjectCache) (s : Store K C)
      → IsValid c s
      → lookup dec k (retire dec once k e s).inner.cache ≡ some x
      → x.cell ≢ e.cell
  unfolding retire drop_key
  lookup-retire k e x c s v h = ground (
    arith,
    lookup-remove_self dec k s.inner.cache
        (Perm.nodup v.consistent.same_keys v.consistent.no_repeat),
  )

  inner-drive :
      (e : CacheEntry) (produced : Result V E) (s : Store K C)
      → (drive dec once e produced s).0.inner ≡ s.inner
  unfolding drive
  inner-drive e produced s = refl

  retire-other :
      (k : K) (e x : CacheEntry) (s : Store K C)
      → lookup dec k s.inner.cache ≡ some x
      → x.cell ≢ e.cell
      → lookup dec k (retire dec once k e s).inner.cache ≡ some x
  unfolding retire
  retire-other k e x s h ne = ground arith

  -- When the computation that a task shares fails, the map does not hold the entry of that
  -- computation afterwards: an entry under the key has another cell.
  pub settle_failure :
      (k : K) (e y : CacheEntry) (produced : Result V E) (x : E) (c : ObjectCache) (s : Store K C)
      → IsValid c s
      → (settle dec once k e produced s).1 ≡ err x
      → lookup dec k (settle dec once k e produced s).0.inner.cache ≡ some y
      → y.cell ≢ e.cell
  unfolding settle
  settle_failure k e y produced x c s v h found =
      let driven = (drive dec once e produced s).0 in
      let failed : is_err (drive dec once e produced s).1 ≡ true = ground arith in
      lookup-retire k e y c driven (drive-IsValid dec once c e produced s v)
        (rw (failed, settle) at found)

  pub settle_newer :
      (k : K) (e y : CacheEntry) (produced : Result V E) (s : Store K C)
      → lookup dec k s.inner.cache ≡ some y
      → y.cell ≢ e.cell
      → lookup dec k (settle dec once k e produced s).0.inner.cache ≡ some y
  unfolding settle
  settle_newer k e y produced s found ne =
      let driven = (drive dec once e produced s).0 in
      ground (arith, retire-other k e y driven (unfold drive in found) ne, inner-drive e produced s)

  drive-filled :
      (e : CacheEntry) (produced : Result V E) (s : Store K C)
      → once.get ((drive dec once e produced s).0.cells e.cell)
        ≡ some (drive dec once e produced s).1
  unfolding drive
  drive-filled e produced s = elim (Option-cases (once.get (s.cells e.cell))) [
    | inl none_yet ↦ ground (arith, once.init_empty (s.cells e.cell) produced none_yet)
    | inr (v, filled) ↦ ground (arith, once.init_filled (s.cells e.cell) produced v filled)
  ]

  -- What an entry with a good result looks like in a store.
  pub record Holds (c : ObjectCache) (k : K) (e : CacheEntry) (w : V) (t : Store K C) : Type 0 where
    pub valid : IsValid c t
    pub stored : lookup dec k t.inner.cache ≡ some e
    pub filled : once.get (t.cells e.cell) ≡ some (ok w)
    pub allocated : e.cell < t.next

  pub Holds-get :
      (c : ObjectCache) (k : K) (later : ℕ) (e : CacheEntry) (w : V) (p : Result V E)
      (t : Store K C)
      → Holds c k e w t
      → seconds later < e.expires
      → (get_result_at dec once c k p later t).1 ≡ ok w
  unfolding get_result_at fast_path
  Holds-get c k later e w p t h lt = ground (
    arith,
    claim_shared dec once c k later t e h.valid h.stored lt,
    cells-claim dec once c k later e.cell t h.allocated,
    h.filled,
  )

  pub entry-allocated :
      (c : ObjectCache) (k : K) (now : ℕ) (s : Store K C)
      → IsValid c s
      → (claim dec once c k now s).1.0.cell < (claim dec once c k now s).0.next
  entry-allocated c k now s v =
      (claim-IsValid dec once c k now s v).allocated (k, (claim dec once c k now s).1.0)
        (lookup-mem dec k (claim dec once c k now s).0.inner.cache
          (lookup-claim dec once c k now s))

  get-slow :
      (c : ObjectCache) (k : K) (now : ℕ) (p : Result V E) (s : Store K C)
      → let (t, (e, hit)) = claim dec once c k now s in
        fast_path dec once t e hit ≡ none
        → get_result_at dec once c k p now s ≡ settle dec once k e p t
  unfolding get_result_at
  get-slow c k now p s slow = rw (slow, get_result_at)

  get-fast :
      (c : ObjectCache) (k : K) (now : ℕ) (p r : Result V E) (s : Store K C)
      → let (t, (e, hit)) = claim dec once c k now s in
        fast_path dec once t e hit ≡ some r
        → (get_result_at dec once c k p now s ≡ (t, r)) × (once.get (t.cells e.cell) ≡ some r)
  unfolding get_result_at
  get-fast c k now p r s fast = (rw (fast, get_result_at), unfold fast_path in ground arith)

  -- A good result is kept: `settle` changes nothing but the cell.
  settle-ok :
      (k : K) (e : CacheEntry) (w : V) (p : Result V E) (t : Store K C)
      → (settle dec once k e p t).1 ≡ ok w
      → settle dec once k e p t ≡ drive dec once e p t
  unfolding settle
  settle-ok k e w p t h = rw (h, settle)

  pub get-Holds :
      (c : ObjectCache) (k : K) (now : ℕ) (w : V) (p : Result V E) (s : Store K C)
      → IsValid c s
      → (get_result_at dec once c k p now s).1 ≡ ok w
      → Holds c k (claim dec once c k now s).1.0 w (get_result_at dec once c k p now s).0
  get-Holds c k now w p s v h =
      let t = (claim dec once c k now s).0 in
      let e = (claim dec once c k now s).1.0 in
      let v' = claim-IsValid dec once c k now s v in
      let at = lookup-claim dec once c k now s in
      let lt = entry-allocated c k now s v in
      elim (Option-cases (fast_path dec once t e (claim dec once c k now s).1.1)) [
        | inl slow ↦
            let run = get-slow c k now p s slow in
            let good = settle-ok k e w p t (rw run at h) in
            rw (run, good)
              (record {
                valid = drive-IsValid dec once c e p t v';
                stored = unfold drive in at;
                filled = drive-filled e p t ∙ ap some (rw (run, good) at h);
                allocated = unfold drive in lt;
              })
        | inr (r, fast) ↦
            let run = get-fast c k now p r s fast in
            rw run.0 (record {
              valid = v';
              stored = at;
              filled = run.1 ∙ ap some (rw run.0 at h);
              allocated = lt;
            })
      ]

  -- The next call on the key, with nothing in between, returns the value of the first one until
  -- the entry of the first call expires.
  pub get_result_at-get_result_at :
      (c : ObjectCache) (k : K) (now later : ℕ) (w : V) (p other : Result V E) (s : Store K C)
      → IsValid c s
      → (get_result_at dec once c k p now s).1 ≡ ok w
      → seconds later < (claim dec once c k now s).1.0.expires
      → (get_result_at dec once c k other later (get_result_at dec once c k p now s).0).1 ≡ ok w
  get_result_at-get_result_at c k now later w p other s v h lt =
      Holds-get c k later (claim dec once c k now s).1.0 w other
        (get_result_at dec once c k p now s).0 (get-Holds c k now w p s v h) lt
