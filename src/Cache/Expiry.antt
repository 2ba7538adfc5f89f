-- ===== src/Cache/Expiry.antt =====
-- What `clean_expired` and the cleanup in front of a call leave in the map (src/cache.rs).
use mathlib.Core.HLevel.{⊥_prop}
use mathlib.Core.List.Nodup
use mathlib.Core.List.Perm
use mathlib.Core.Logic.Or
use mathlib.Core.List.{
  Mem, Nodup, Nodup-cons, erase-sublist, lookup, mem-cons, mem-cons_self, mem-cons_of_mem,
  not-mem-nil, Mem-prop,
}
use bo_srv_rs.Common.{
  ℕ, ◌<◌, true, false, List, [], ◌∷◌, none, some, ◌≡◌, refl, ◌∙◌, arith, lt→ltb, inl, inr,
  Bool-cases, Option-cases,
}
use bo_srv_rs.Cache.Defs.{
  CacheEntry, Inner, ObjectCache, remove, drop_key, drop_keys, expired, clean_expired, cleanup,
  valid_entry, seconds, is_valid,
}
use bo_srv_rs.Cache.Keys.{keys, keys-remove, lookup-remove_ne}
use bo_srv_rs.Cache.Invariant.{IsConsistent}

module _ {K : Type 0} (dec : Discrete K) where
  pub lookup_not-mem :
      (k : K) (m : List (K × CacheEntry)) → ¬ Mem k (keys m) → lookup dec k m ≡ none
  unfolding lookup
  lookup_not-mem k [] h = refl
  lookup_not-mem k (x ∷ m) h = elim (dec k x.0) [
    | yes p ↦ absurd (h (rw p mem-cons_self))
    | no p ↦ ground (arith, lookup_not-mem k m (λ q. h (mem-cons_of_mem x.0 q)))
  ]

  pub lookup-remove_self :
      (k : K) (m : List (K × CacheEntry)) → Nodup (keys m) → lookup dec k (remove dec k m) ≡ none
  lookup-remove_self k m d =
      lookup_not-mem k (remove dec k m)
        (λ h. ((Nodup.mem-erase_iff dec d).0 (rw (keys-remove dec k m) at h)).0 refl)

  remove-Nodup :
      (k : K) (m : List (K × CacheEntry)) → Nodup (keys m) → Nodup (keys (remove dec k m))
  remove-Nodup k m d = rw (keys-remove dec k m) (Nodup.sublist (erase-sublist dec k) d)

  remove_all : List K → List (K × CacheEntry) → List (K × CacheEntry)
  remove_all [] m = m
  remove_all (k ∷ ks) m = remove_all ks (remove dec k m)

  cache-drop_keys : (ks : List K) (i : Inner K) → (drop_keys dec ks i).cache ≡ remove_all ks i.cache
  unfolding drop_keys drop_key remove_all
  cache-drop_keys [] i = refl
  cache-drop_keys (k ∷ ks) i = cache-drop_keys ks (drop_key dec k i)

  lookup-remove-none :
      (k q : K) (m : List (K × CacheEntry))
      → lookup dec q m ≡ none
      → Nodup (keys m)
      → lookup dec q (remove dec k m) ≡ none
  lookup-remove-none k q m h d = elim (dec q k) [
    | yes p ↦ rw p (lookup-remove_self k m d)
    | no p ↦ lookup-remove_ne dec k q m p ∙ h
  ]

  lookup-remove_all-none :
      (q : K) (ks : List K) (m : List (K × CacheEntry))
      → lookup dec q m ≡ none
      → Nodup (keys m)
      → lookup dec q (remove_all ks m) ≡ none
  unfolding remove_all
  lookup-remove_all-none q [] m h d = h
  lookup-remove_all-none q (k ∷ ks) m h d =
      lookup-remove_all-none q ks (remove dec k m) (lookup-remove-none k q m h d)
        (remove-Nodup k m d)

  lookup-remove_all_ne :
      (q : K) (ks : List K) (m : List (K × CacheEntry))
      → ¬ Mem q ks
      → lookup dec q (remove_all ks m) ≡ lookup dec q m
  unfolding remove_all
  lookup-remove_all_ne q [] m h = refl
  lookup-remove_all_ne q (k ∷ ks) m h =
      lookup-remove_all_ne q ks (remove dec k m) (λ p. h (mem-cons_of_mem k p))
      ∙ lookup-remove_ne dec k q m (λ e. h (rw e mem-cons_self))

  expired-keys :
      (t : ℕ) (k : K) (m : List (K × CacheEntry)) → ¬ Mem k (keys m) → ¬ Mem k (expired dec t m)
  unfolding expired
  expired-keys t k [] h = not-mem-nil
  expired-keys t k ((j, e) ∷ m) h =
      let later = expired-keys t k m (λ p. h (mem-cons_of_mem j p)) in
      elim (Bool-cases (is_valid e t)) [
        | inl fresh ↦ rw (fresh, expired) later
        | inr old ↦
            rw (old, expired)
              (λ p. Or.elim ⊥_prop (mem-cons.0 p) (λ e. h (rw e mem-cons_self)) later)
      ]

  lookup-remove_all_mem :
      (q : K) (ks : List K) (m : List (K × CacheEntry))
      → Mem q ks
      → Nodup (keys m)
      → lookup dec q (remove_all ks m) ≡ none
  unfolding remove_all
  lookup-remove_all_mem q [] m h d = absurd (not-mem-nil h)
  lookup-remove_all_mem q (k ∷ ks) m h d = elim (dec q k) [
    | yes p ↦
        lookup-remove_all-none q ks (remove dec k m) (rw p (lookup-remove_self k m d))
          (remove-Nodup k m d)
    | no p ↦
        lookup-remove_all_mem q ks (remove dec k m)
          (Or.elim Mem-prop (mem-cons.0 h) (λ e. absurd (p e)) (λ later. later))
          (remove-Nodup k m d)
  ]

  expired-mem :
      (t : ℕ) (k : K) (m : List (K × CacheEntry)) {e : CacheEntry}
      → lookup dec k m ≡ some e
      → is_valid e t ≡ false
      → Mem k (expired dec t m)
  unfolding expired lookup
  expired-mem t k [] h old = cc
  expired-mem t k ((j, x) ∷ m) {e} h old = elim (dec k j) [
    | yes p ↦
        let same : is_valid x t ≡ false = ground arith in rw (same, expired) (rw p mem-cons_self)
    | no p ↦
        let later = expired-mem t k m {e = e} (ground arith) old in
        elim (Bool-cases (is_valid x t)) [
          | inl fresh ↦ rw (fresh, expired) later
          | inr gone ↦ rw (gone, expired) (mem-cons_of_mem j later)
        ]
  ]

  valid-not-mem :
      (t : ℕ) (k : K) (m : List (K × CacheEntry)) {e : CacheEntry}
      → lookup dec k m ≡ some e
      → is_valid e t ≡ true
      → Nodup (keys m)
      → ¬ Mem k (expired dec t m)
  unfolding expired lookup
  valid-not-mem t k [] h fresh d = not-mem-nil
  valid-not-mem t k ((j, x) ∷ m) {e} h fresh d = elim (dec k j) [
    | yes p ↦
        let same : is_valid x t ≡ true = ground arith in
        rw (same, expired) (expired-keys t k m (rw p (Nodup-cons.0 d).0))
    | no p ↦
        let later = valid-not-mem t k m {e = e} (ground arith) fresh (Nodup-cons.0 d).1 in
        elim (Bool-cases (is_valid x t)) [
          | inl kept ↦ rw (kept, expired) later
          | inr gone ↦ rw (gone, expired) (λ q. Or.elim ⊥_prop (mem-cons.0 q) (λ e. p e) later)
        ]
  ]

  cache-Nodup : (i : Inner K) → IsConsistent i → Nodup (keys i.cache)
  cache-Nodup i h = Perm.nodup h.same_keys h.no_repeat

  -- After the sweep at time `now` a consistent map holds, under every key, the entry that it
  -- held before if that entry is still valid at `now`, and nothing if it has expired or was
  -- not there.
  pub lookup-clean_expired :
      (now : ℕ) (k : K) (i : Inner K)
      → IsConsistent i
      → lookup dec k (clean_expired dec now i).cache ≡ valid_entry dec k (seconds now) i
  unfolding clean_expired valid_entry
  lookup-clean_expired now k i h =
      let t = seconds now in
      let d = cache-Nodup i h in
      rw (cache-drop_keys (expired dec t i.cache) i) (elim (Option-cases (lookup dec k i.cache)) [
        | inl absent ↦
            rw (absent, valid_entry)
              (lookup-remove_all-none k (expired dec t i.cache) i.cache absent d)
        | inr (e, found) ↦
            rw (found, valid_entry)
              (elim (Bool-cases (is_valid e t)) [
                | inl fresh ↦ rw fresh (
                    lookup-remove_all_ne k (expired dec t i.cache) i.cache
                      (valid-not-mem t k i.cache found fresh d)
                    ∙ found)
                | inr old ↦ rw old (
                    lookup-remove_all_mem k (expired dec t i.cache) i.cache
                      (expired-mem t k i.cache found old) d)
              ])
      ])

  -- The cleanup in front of a call loses no entry that is valid at the time of the call.
  pub lookup-cleanup :
      (c : ObjectCache) (now : ℕ) (k : K) (i : Inner K) (e : CacheEntry)
      → IsConsistent i
      → lookup dec k i.cache ≡ some e
      → seconds now < e.expires
      → lookup dec k (cleanup dec c now i).cache ≡ some e
  unfolding cleanup valid_entry
  lookup-cleanup c now k i e h found lt =
      let fresh : is_valid e (seconds now) ≡ true = lt→ltb (seconds now) e.expires lt in
      ground (arith, lookup-clean_expired now k i h)
