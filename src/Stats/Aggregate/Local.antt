-- ===== src/Stats/Aggregate/Local.antt =====
-- The local queries and the counters of `aggregate` (src/stats/aggregate.rs) against the rows.
use mathlib.Core.List.{Perm, Permᴰ}
use mathlib.Core.Logic.{∥∥₁_elim}
use native.Mathlib.Nat.{ℕ_set}
use bo_srv_rs.Common.{
  bit, count, is_none, ℕ, ◌+◌, not, ◌&&◌, List, [], ◌∷◌, map, Option, none, some, inl, inr, ◌≡◌,
  refl, ◌∙◌, ap, arith, length, All, All-append, length-append, Bool-cases,
}
use bo_srv_rs.Common.Int.{ℤ, pos, ◌==ℤ◌, ◌≤ℤ◌, ltb_ℤ}
use bo_srv_rs.Stats.Counter.{Counter, sum_counts, sum_counts-bump}
use bo_srv_rs.Common.Sort.{sort-perm}
use bo_srv_rs.Stats.Row.{ServiceLogRow, is_local}
use bo_srv_rs.Stats.Aggregate.Types.{Tally, start, DataAreaBucket, LocalQuery, area_of}
use bo_srv_rs.Stats.Aggregate.Defs.{
  bucket, count_request, count_country, count_city, count_version, count_local, push_query,
  with_place, count_row, count_rows, take_distribution, aggregate,
}
use bo_srv_rs.Stats.Aggregate.Totals.{is_placed, count_rows-count}

-- What one round does to the local queries and their counters, when nothing is placed.
record SamePlaces (t t' : Tally) : Type 0 where
  queries : t'.stats.local_queries ≡ t.stats.local_queries
  offline : t'.stats.offline_requests ≡ t.stats.offline_requests
  interactive : t'.stats.interactive_requests ≡ t.stats.interactive_requests
  areas : t'.data_areas ≡ t.data_areas

SamePlaces-trans : {t u v : Tally} → SamePlaces t u → SamePlaces u v → SamePlaces t v
SamePlaces-trans f g = record {
  queries = g.queries ∙ f.queries;
  offline = g.offline ∙ f.offline;
  interactive = g.interactive ∙ f.interactive;
  areas = g.areas ∙ f.areas;
}

-- Every local query lies in an area of at least five degrees.
abbrev pub HasArea : LocalQuery → Type 0
HasArea q = pos 5 ≤ℤ q.data_area

record Placed (t : Tally) : Type 0 where
  split : t.stats.offline_requests + t.stats.interactive_requests ≡ length t.stats.local_queries
  spread : sum_counts t.data_areas ≡ length t.stats.local_queries
  areas : All HasArea t.stats.local_queries

SamePlaces-Placed : {t t' : Tally} → SamePlaces t t' → Placed t → Placed t'
SamePlaces-Placed s p = record {
  split = rw (s.queries, s.offline, s.interactive) p.split;
  spread = rw (s.queries, s.areas) p.spread;
  areas = rw s.queries p.areas;
}

area_of-HasArea : (o : Option ℤ) → pos 5 ≤ℤ area_of o
area_of-HasArea none = omega arith
area_of-HasArea (some a) = ground arith

start-Placed : Placed start
start-Placed = record { split = refl; spread = refl; areas = tt }

-- The queries that the buckets count together.
abbrev pub sum_areas : List DataAreaBucket → ℕ
sum_areas [] = 0
sum_areas (b ∷ bs) = b.count + sum_areas bs

sum_areas-permᴰ : {l k : List DataAreaBucket} → Permᴰ l k → sum_areas l ≡ sum_areas k
sum_areas-permᴰ Permᴰ.nil = refl
sum_areas-permᴰ (Permᴰ.cons {a = a} {b = b} e p) =
    omega (arith, ap (λ (b : DataAreaBucket). b.count) e, sum_areas-permᴰ p)
sum_areas-permᴰ (Permᴰ.swap e f) =
    omega (arith, ap (λ (b : DataAreaBucket). b.count) e, ap (λ (b : DataAreaBucket). b.count) f)
sum_areas-permᴰ (Permᴰ.trans p q) = sum_areas-permᴰ p ∙ sum_areas-permᴰ q

sum_areas-perm : {l k : List DataAreaBucket} → Perm l k → sum_areas l ≡ sum_areas k
sum_areas-perm {l = l} {k = k} p = ∥∥₁_elim p (ℕ_set (sum_areas l) (sum_areas k)) sum_areas-permᴰ

sum_of-buckets : (m : Counter ℤ) → sum_areas (map bucket m) ≡ sum_counts m
sum_of-buckets [] = refl
sum_of-buckets ((_, n) ∷ m) = ap (n +◌) (sum_of-buckets m)

module _ {F : Type 0} where
  SamePlaces-request :
      (r : ServiceLogRow F) (t : Tally)
      → SamePlaces t (record t { stats = count_request r t.stats })
  unfolding count_request
  SamePlaces-request r t = record {
    queries = refl;
    offline = refl;
    interactive = refl;
    areas = refl;
  }

  SamePlaces-country : (r : ServiceLogRow F) (t : Tally) → SamePlaces t (count_country r t)
  unfolding count_country
  SamePlaces-country r t = ground arith

  SamePlaces-city : (r : ServiceLogRow F) (t : Tally) → SamePlaces t (count_city r t)
  unfolding count_city
  SamePlaces-city r t = ground arith

  SamePlaces-version : (r : ServiceLogRow F) (t : Tally) → SamePlaces t (count_version r t)
  unfolding count_version
  SamePlaces-version r t = ground arith

  before_local : ServiceLogRow F → Tally → Tally
  before_local r t =
      count_version r
        (count_city r (count_country r (record t { stats = count_request r t.stats })))

  SamePlaces-before : (r : ServiceLogRow F) (t : Tally) → SamePlaces t (before_local r t)
  unfolding before_local
  SamePlaces-before r t =
      let requested = record t { stats = count_request r t.stats } in
      let country = count_country r requested in
      SamePlaces-trans (SamePlaces-request r t) (
        SamePlaces-trans (SamePlaces-country r requested) (
          SamePlaces-trans (SamePlaces-city r country)
            (SamePlaces-version r (count_city r country))))

  push_query-Placed :
      (r : ServiceLogRow F) (x y : ℤ) (t : Tally) → Placed t → Placed (push_query r x y t)
  unfolding push_query
  push_query-Placed r x y t p =
      let query : LocalQuery = record {
        x = x;
        y = y;
        data_area = area_of r.data_area;
        grid_baselength = r.grid_baselength;
        minute_length = r.minute_length;
        query_type = r.query_type;
      } in
      let longer = length-append t.stats.local_queries (query ∷ []) in
      record {
        split = ground (arith, longer, p.split);
        spread =
            omega
              (arith, longer, p.spread, sum_counts-bump ◌==ℤ◌ (area_of r.data_area) t.data_areas);
        areas =
            All-append HasArea t.stats.local_queries (query ∷ []) p.areas
              (area_of-HasArea r.data_area, tt);
      }

  with_place-Placed :
      (r : ServiceLogRow F) (x y : Option ℤ) (t : Tally) → Placed t → Placed (with_place r x y t)
  with_place-Placed r (some x) (some y) t p = push_query-Placed r x y t p
  with_place-Placed r (some x) none t p = p
  with_place-Placed r none y t p = p

  count_local-Placed : (r : ServiceLogRow F) (t : Tally) → Placed t → Placed (count_local r t)
  unfolding count_local
  count_local-Placed r t p = elim (Bool-cases (is_local r)) [
    | inl e ↦ rw e (with_place-Placed r r.x r.y t p)
    | inr e ↦ rw e p
  ]

  count_row-Placed : (r : ServiceLogRow F) (t : Tally) → Placed t → Placed (count_row t r)
  unfolding count_row before_local
  count_row-Placed r t p =
      count_local-Placed r (before_local r t) (SamePlaces-Placed (SamePlaces-before r t) p)

  count_rows-Placed :
      (rs : List (ServiceLogRow F)) (t : Tally) → Placed t → Placed (count_rows t rs)
  unfolding count_rows
  count_rows-Placed [] t p = p
  count_rows-Placed (r ∷ rs) t p = count_rows-Placed rs (count_row t r) (count_row-Placed r t p)

  placed_by-with_place :
      (r : ServiceLogRow F) (x y : Option ℤ) (t : Tally)
      → length (with_place r x y t).stats.local_queries
        ≡ length t.stats.local_queries + bit (not (is_none x) && not (is_none y))
  unfolding push_query
  placed_by-with_place r (some x) (some y) t = length-append t.stats.local_queries _
  placed_by-with_place r (some x) none t = omega arith
  placed_by-with_place r none y t = omega arith

  placed_by-count_row :
      (t : Tally) (r : ServiceLogRow F)
      → length (count_row t r).stats.local_queries
        ≡ length t.stats.local_queries + bit (is_placed r)
  unfolding count_row count_local before_local
  placed_by-count_row t r =
      let queries = ap length (SamePlaces-before r t).queries in
      elim (Bool-cases (is_local r)) [
        | inl e ↦ rw e (placed_by-with_place r r.x r.y (before_local r t) ∙ omega (arith, queries))
        | inr e ↦ rw e (omega (arith, queries))
      ]

  -- The local queries: there is one for each local row with both coordinates, each lies in an area
  -- of five degrees or more, the offline and the interactive ones make them up, and so do the
  -- buckets of the distribution of the areas.
  pub aggregate-local :
      (rows : List (ServiceLogRow F)) (top_n : ℕ)
      → let s = aggregate rows top_n in
        (length s.local_queries ≡ count is_placed rows)
        × (s.offline_requests + s.interactive_requests ≡ count is_placed rows)
        × (sum_areas s.data_area_distribution ≡ count is_placed rows)
        × All HasArea s.local_queries
  unfolding aggregate take_distribution
  aggregate-local rows top_n =
      let t = count_rows start rows in
      let queries : length t.stats.local_queries ≡ count is_placed rows =
        count_rows-count (λ u. length u.stats.local_queries) is_placed placed_by-count_row start
          rows
        ∙ omega arith in
      let p = count_rows-Placed rows start start-Placed in
      let buckets = map bucket t.data_areas in
      (
        queries,
        p.split ∙ queries,
        sum_areas-perm (sort-perm (λ a b. ltb_ℤ a.data_area b.data_area) buckets)
            ∙ sum_of-buckets t.data_areas
            ∙ p.spread
            ∙ queries,
        p.areas,
      )
