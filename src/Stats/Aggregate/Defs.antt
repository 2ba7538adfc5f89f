-- ===== src/Stats/Aggregate/Defs.antt =====
-- The loop of `aggregate` (src/stats/aggregate.rs), and the report of a day (src/stats/day.rs).
use bo_srv_rs.Common.{
  ℕ, ◌+◌, Bool, true, false, List, [], ◌∷◌, ◌++◌, map, Option, none, some, take, ltb, if◌then◌else◌,
}
use bo_srv_rs.Common.Int.{ℤ, ◌==ℤ◌, ltb_ℤ}
use bo_srv_rs.Common.Text.Decimal.{Text, print_ℤ}
use bo_srv_rs.Common.Text.Order.{text_eq, text_lt}
use bo_srv_rs.Stats.Counter.{Counter, bump}
use bo_srv_rs.Common.Sort.{sort}
use bo_srv_rs.Stats.Row.{
  ServiceLogRow, ParseOutcome, is_local, is_global, is_region, is_grid, is_cluster,
}
use bo_srv_rs.Stats.Aggregate.Types.{
  DataAreaBucket, LocalQuery, QueryMatrix, ServiceLogStats, Tally, TopEntry, area_of,
  is_interactive, start,
}

module _ {F : Type 0} where
  unfoldable pub count_matrix : ServiceLogRow F → QueryMatrix → QueryMatrix
  count_matrix r m =
      if is_grid r
      then (if is_local r
          then record m { grid_local = m.grid_local + 1 }
          else if is_global r
          then record m { grid_global = m.grid_global + 1 }
          else if is_region r
          then record m { grid_region = m.grid_region + 1 }
          else m)
      else if is_cluster r
      then (if is_local r
          then record m { cluster_local = m.cluster_local + 1 }
          else if is_global r
          then record m { cluster_global = m.cluster_global + 1 }
          else if is_region r
          then record m { cluster_region = m.cluster_region + 1 }
          else m)
      else m

  -- The rows and columns that a row belongs to.
  unfoldable pub count_request : ServiceLogRow F → ServiceLogStats → ServiceLogStats
  unfolding count_matrix
  count_request r s = record s {
    total_requests = s.total_requests + 1;
    query_matrix = count_matrix r s.query_matrix;
    grid_requests = if is_grid r then s.grid_requests + 1 else s.grid_requests;
    cluster_requests =
        if is_grid r
        then s.cluster_requests
        else if is_cluster r
        then s.cluster_requests + 1
        else s.cluster_requests;
    local_requests = if is_local r then s.local_requests + 1 else s.local_requests;
    global_requests =
        if is_local r
        then s.global_requests
        else if is_global r
        then s.global_requests + 1
        else s.global_requests;
    region_requests =
        if is_local r
        then s.region_requests
        else if is_global r
        then s.region_requests
        else if is_region r
        then s.region_requests + 1
        else s.region_requests;
  }

  unfoldable pub count_country : ServiceLogRow F → Tally → Tally
  count_country r t = elim r.country [
    | some country ↦ record t { countries = bump text_eq country t.countries }
    | none ↦ record t { stats = record (t.stats) { unknown_country = t.stats.unknown_country + 1 } }
  ]

  unfoldable pub count_city : ServiceLogRow F → Tally → Tally
  count_city r t = elim r.city [
    | some city ↦ record t { cities = bump text_eq city t.cities }
    | none ↦ record t { stats = record (t.stats) { unknown_city = t.stats.unknown_city + 1 } }
  ]

  unfoldable pub count_version : ServiceLogRow F → Tally → Tally
  count_version r t = elim r.version [
    | some version ↦ record t { versions = bump text_eq (print_ℤ version) t.versions }
    | none ↦ record t { stats = record (t.stats) { unknown_version = t.stats.unknown_version + 1 } }
  ]

  unfoldable pub push_query : ServiceLogRow F → ℤ → ℤ → Tally → Tally
  push_query r x y t =
      let area = area_of r.data_area in
      let query : LocalQuery = record {
        x = x;
        y = y;
        data_area = area;
        grid_baselength = r.grid_baselength;
        minute_length = r.minute_length;
        query_type = r.query_type;
      } in
      let s = t.stats in
      record t {
        data_areas = bump ◌==ℤ◌ area t.data_areas;
        stats = record s {
          interactive_requests =
              if is_interactive query then s.interactive_requests + 1 else s.interactive_requests;
          offline_requests =
              if is_interactive query then s.offline_requests else s.offline_requests + 1;
          local_queries = s.local_queries ++ query ∷ [];
        };
      }

  abbrev pub with_place : ServiceLogRow F → Option ℤ → Option ℤ → Tally → Tally
  with_place r (some x) (some y) t = push_query r x y t
  with_place r (some x) none t = t
  with_place r none y t = t

  unfoldable pub count_local : ServiceLogRow F → Tally → Tally
  count_local r t = if is_local r then with_place r r.x r.y t else t

  -- One round of the loop.
  unfoldable pub count_row : Tally → ServiceLogRow F → Tally
  count_row t r =
      let requested = record t { stats = count_request r t.stats } in
      count_local r (count_version r (count_city r (count_country r requested)))

  unfoldable pub count_rows : Tally → List (ServiceLogRow F) → Tally
  count_rows t [] = t
  count_rows t (r ∷ rs) = count_rows (count_row t r) rs

abbrev pub top_entry : Text × ℕ → TopEntry
top_entry e = record { label = e.0; count = e.1 }

-- Descending by count, then ascending by label.
abbrev pub ranks_before : TopEntry → TopEntry → Bool
ranks_before a b =
    if ltb b.count a.count
    then true
    else if ltb a.count b.count
    then false
    else text_lt a.label b.label

unfoldable pub take_top : Counter Text → ℕ → List TopEntry
unfolding sort
take_top counter n = take n (sort ranks_before (map top_entry counter))

abbrev pub bucket : ℤ × ℕ → DataAreaBucket
bucket e = record { data_area = e.0; count = e.1 }

unfoldable pub take_distribution : Counter ℤ → List DataAreaBucket
unfolding sort
take_distribution counter = sort (λ a b. ltb_ℤ a.data_area b.data_area) (map bucket counter)

unfoldable pub aggregate : {F : Type 0} → List (ServiceLogRow F) → ℕ → ServiceLogStats
aggregate rows top_n =
    let t = count_rows start rows in
    record (t.stats) {
      countries = take_top t.countries top_n;
      cities = take_top t.cities top_n;
      versions = take_top t.versions top_n;
      data_area_distribution = take_distribution t.data_areas;
    }

pub record DayReport : Type 0 where
  pub day : Text
  pub stats : ServiceLogStats
  pub malformed : ℕ

unfoldable pub day_report : {F : Type 0} → Text → ParseOutcome F → ℕ → DayReport
day_report day outcome top_n = record {
  day = day;
  stats = aggregate outcome.rows top_n;
  malformed = outcome.malformed;
}
