-- ===== src/Cache/Defs.antt =====
-- `CacheEntry`, `Inner` and the sections of `ObjectCache::get_result_at` (src/cache.rs).
use mathlib.Core.List.{erase, erase_p, lookup}
use bo_srv_rs.Common.Result.{Result, ok, err, is_err}
use bo_srv_rs.Common.{
  ℕ, ◌+◌, ◌/◌, Bool, true, false, List, [], ◌∷◌, ◌++◌, Option, none, some, ◌≡◌, ltb, leb, ◌==◌,
  if◌then◌else◌, length,
}

-- `tokio::sync::OnceCell`: `get_or_init` runs the initialiser, here its result, only on a cell
-- that holds nothing, and leaves a filled cell as it is.
pub record OnceCell (C R : Type 0) : Type 0 where
  pub new : C
  pub get : C → Option R
  pub get_or_init : C → R → C
  pub get-new : get new ≡ none
  pub init_empty : (c : C) (r : R) → get c ≡ none → get (get_or_init c r) ≡ some r
  pub init_filled : (c : C) (r v : R) → get c ≡ some v → get (get_or_init c r) ≡ some v

pub record CacheEntry : Type 0 where
  pub expires : ℕ
  pub cell : ℕ

abbrev pub seconds : ℕ → ℕ
seconds now = now / 1000000000

abbrev pub is_valid : CacheEntry → ℕ → Bool
is_valid e current_time = ltb current_time e.expires

pub record Inner (K : Type 0) : Type 0 where
  pub cache : List (K × CacheEntry)
  pub keys : List K
  pub last_cleanup : ℕ
  pub total_count : ℕ
  pub total_hit_count : ℕ

pub record ObjectCache : Type 0 where
  pub ttl_seconds : ℕ
  pub size : Option ℕ
  pub cleanup_period : Option ℕ

-- The mutex-guarded state and the cells that entries point to; the cells from `next` on are new.
pub record Store (K C : Type 0) : Type 0 where
  pub inner : Inner K
  pub cells : ℕ → C
  pub next : ℕ

abbrev pub update {ℓ} : {A : Type ℓ} → (ℕ → A) → ℕ → A → ℕ → A
update f i a j = if j == i then a else f j

abbrev pub is_some {ℓ} : {A : Type ℓ} → Option A → Bool
is_some none = false
is_some (some _) = true

module _ {K : Type 0} (dec : Discrete K) where
  -- `HashMap::remove`.
  unfoldable pub remove : K → List (K × CacheEntry) → List (K × CacheEntry)
  remove k = erase_p (λ e. dec e.0 k)

  unfoldable pub drop_key : K → Inner K → Inner K
  drop_key k i = record i { keys = erase dec i.keys k; cache = remove k i.cache }

  unfoldable pub remove_oldest_entry : Inner K → Inner K
  remove_oldest_entry i = elim i.keys [
    | [] ↦ i
    | k ∷ ks ↦ record i { keys = ks; cache = remove k i.cache }
  ]

  unfoldable pub track_usage : K → Inner K → Inner K
  track_usage k i = record i { keys = erase dec i.keys k ++ k ∷ [] }

  unfoldable pub expired : ℕ → List (K × CacheEntry) → List K
  expired current_time [] = []
  expired current_time ((k, e) ∷ rest) =
      if is_valid e current_time then expired current_time rest else k ∷ expired current_time rest

  unfoldable pub drop_keys : List K → Inner K → Inner K
  drop_keys [] i = i
  drop_keys (k ∷ ks) i = drop_keys ks (drop_key k i)

  unfoldable pub clean_expired : ℕ → Inner K → Inner K
  clean_expired now i = drop_keys (expired (seconds now) i.cache) i

  -- The cleanup at the head of the locked section.
  unfoldable pub cleanup : ObjectCache → ℕ → Inner K → Inner K
  cleanup c now i = elim c.cleanup_period [
    | none ↦ i
    | some period ↦
        if ltb (i.last_cleanup + period) now
        then record (clean_expired now i) { last_cleanup = now }
        else i
  ]

  -- `inner.cache.get(key).filter(|entry| entry.is_valid(current_time))`.
  unfoldable pub valid_entry : K → ℕ → Inner K → Option CacheEntry
  valid_entry k current_time i = elim (lookup dec k i.cache) [
    | none ↦ none
    | some e ↦ if is_valid e current_time then some e else none
  ]

  -- The `if let Some(size)` of a miss.
  unfoldable pub make_room : ObjectCache → Inner K → Inner K
  make_room c i = elim c.size [
    | none ↦ i
    | some size ↦ if leb size (length i.cache) then remove_oldest_entry i else i
  ]

  -- `HashMap::insert`.
  unfoldable pub insert : K → CacheEntry → List (K × CacheEntry) → List (K × CacheEntry)
  insert k e m = (k, e) ∷ remove k m

  module _ {C V E : Type 0} (once : OnceCell C (Result V E)) where
    unfoldable pub claim_hit : ObjectCache → K → CacheEntry → Store K C → Store K C
    claim_hit c k e s =
        let tracked = if is_some c.size then track_usage k s.inner else s.inner in
        let hits = if is_some (once.get (s.cells e.cell)) then 1 else 0 in
        record s { inner = record tracked { total_hit_count = tracked.total_hit_count + hits } }

    unfoldable pub claim_miss : ObjectCache → K → ℕ → Store K C → Store K C
    claim_miss c k current_time s =
        let e : CacheEntry = record { expires = current_time + c.ttl_seconds; cell = s.next } in
        let tracked = track_usage k (make_room c s.inner) in
        record {
          inner = record tracked { cache = insert k e tracked.cache };
          cells = update s.cells s.next once.new;
          next = s.next + 1;
        }

    -- The start of the locked section: cleanup, and the count of the call.
    unfoldable pub count_call : ObjectCache → ℕ → Store K C → Store K C
    count_call c now s =
        let i = cleanup c now s.inner in
        record s { inner = record i { total_count = i.total_count + 1 } }

    -- The locked section of `get_result_at`: the new state, the entry, and whether it is a hit.
    unfoldable pub claim : ObjectCache → K → ℕ → Store K C → Store K C × (CacheEntry × Bool)
    claim c k now s =
        let s1 = count_call c now s in
        elim (valid_entry k (seconds now) s1.inner) [
          | some e ↦ (claim_hit c k e s1, (e, true))
          | none ↦ (
            claim_miss c k (seconds now) s1,
            (record { expires = seconds now + c.ttl_seconds; cell = s1.next }, false),
          )
        ]

    -- `hit && entry.result.initialized()`.
    unfoldable pub fast_path : Store K C → CacheEntry → Bool → Option (Result V E)
    fast_path s e hit = if hit then once.get (s.cells e.cell) else none

    -- `entry.result.get_or_init(creator).await.clone()`, once the cell is filled.
    unfoldable pub drive : CacheEntry → Result V E → Store K C → Store K C × Result V E
    drive e produced s =
        let c = once.get_or_init (s.cells e.cell) produced in
        (
          record s { cells = update s.cells e.cell c },
          elim (once.get c) [ none ↦ produced | some r ↦ r ],
        )

    -- The locked section after a failure.
    unfoldable pub retire : K → CacheEntry → Store K C → Store K C
    retire k e s = elim (lookup dec k s.inner.cache) [
      | none ↦ s
      | some current ↦ if current.cell == e.cell then record s { inner = drop_key k s.inner } else s
    ]

    unfoldable pub settle : K → CacheEntry → Result V E → Store K C → Store K C × Result V E
    settle k e produced s =
        let (s', result) = drive e produced s in
        (if is_err result then retire k e s' else s', result)

    -- `get_result_at` with no other task between its sections; `produced` is what `creator`
    -- would return.
    unfoldable pub get_result_at :
        ObjectCache → K → Result V E → ℕ → Store K C → Store K C × Result V E
    get_result_at c k produced now s =
        let (s', (e, hit)) = claim c k now s in
        elim (fast_path s' e hit) [ some r ↦ (s', r) | none ↦ settle k e produced s' ]

    -- `ObjectCache::get`, with `null` for `Value::Null`.
    unfoldable pub get : V → ObjectCache → K → Result V E → ℕ → Store K C → Store K C × V
    get null c k produced now s =
        let (s', result) = get_result_at c k produced now s in
        (s', elim result [ ok v ↦ v | err _ ↦ null ])

-- `ObjectCache::clear`.
unfoldable pub clear : {K C : Type 0} → Store K C → Store K C
clear s = record s {
  inner = record { cache = []; keys = []; total_count = 0; total_hit_count = 0; last_cleanup = 0 };
}

-- `Inner::default()` in a store with no entries.
abbrev pub empty : {K C : Type 0} → C → Store K C
empty new = record {
  inner = record { cache = []; keys = []; last_cleanup = 0; total_count = 0; total_hit_count = 0 };
  cells = λ _. new;
  next = 0;
}
