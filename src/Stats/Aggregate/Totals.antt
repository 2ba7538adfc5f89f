-- ===== src/Stats/Aggregate/Totals.antt =====
-- The counts of `aggregate` (src/stats/aggregate.rs) against counts over the rows.
use bo_srv_rs.Common.{
  ℕ, ◌+◌, Bool, true, not, ◌&&◌, ◌||◌, List, [], ◌∷◌, ◌≡◌, refl, ◌∙◌, arith, bit, count, is_none,
  length,
}
use bo_srv_rs.Stats.Row.{ServiceLogRow, is_local, is_global, is_region, is_grid, is_cluster}
use bo_srv_rs.Stats.Aggregate.Types.{Tally, start, total}
use bo_srv_rs.Stats.Aggregate.Defs.{
  count_matrix, count_request, count_country, count_city, count_version, count_local, push_query,
  count_row, count_rows, aggregate,
}

-- Rows that no cell of the matrix counts: a query type that is neither `G` nor `C`, or a region
-- below -1.
abbrev pub is_unclassified : {F : Type 0} → ServiceLogRow F → Bool
is_unclassified r = not ((is_grid r || is_cluster r) && (is_local r || is_global r || is_region r))

-- A local row with both coordinates.
abbrev pub is_placed : {F : Type 0} → ServiceLogRow F → Bool
is_placed r = is_local r && not (is_none r.x) && not (is_none r.y)

record SameRequests (t t' : Tally) : Type 0 where
  total : t'.stats.total_requests ≡ t.stats.total_requests
  grid : t'.stats.grid_requests ≡ t.stats.grid_requests
  cluster : t'.stats.cluster_requests ≡ t.stats.cluster_requests
  local : t'.stats.local_requests ≡ t.stats.local_requests
  global : t'.stats.global_requests ≡ t.stats.global_requests
  region : t'.stats.region_requests ≡ t.stats.region_requests
  matrix : t'.stats.query_matrix ≡ t.stats.query_matrix

SameRequests-trans : {t u v : Tally} → SameRequests t u → SameRequests u v → SameRequests t v
SameRequests-trans f g = record {
  total = g.total ∙ f.total;
  grid = g.grid ∙ f.grid;
  cluster = g.cluster ∙ f.cluster;
  local = g.local ∙ f.local;
  global = g.global ∙ f.global;
  region = g.region ∙ f.region;
  matrix = g.matrix ∙ f.matrix;
}

module _ {F : Type 0} where
  -- A number that each round raises by one exactly on the rows that pass a test.
  pub count_rows-count :
      (measure : Tally → ℕ) (p : ServiceLogRow F → Bool)
      → ((t : Tally) (r : ServiceLogRow F) → measure (count_row t r) ≡ measure t + bit (p r))
      → (t : Tally) (rs : List (ServiceLogRow F))
      → measure (count_rows t rs) ≡ measure t + count p rs
  unfolding count_rows
  count_rows-count measure p one t [] = omega arith
  count_rows-count measure p one t (r ∷ rs) =
      omega (arith, one t r, count_rows-count measure p one (count_row t r) rs)

  SameRequests-country : (r : ServiceLogRow F) (t : Tally) → SameRequests t (count_country r t)
  unfolding count_country
  SameRequests-country r t = ground arith

  SameRequests-city : (r : ServiceLogRow F) (t : Tally) → SameRequests t (count_city r t)
  unfolding count_city
  SameRequests-city r t = ground arith

  SameRequests-version : (r : ServiceLogRow F) (t : Tally) → SameRequests t (count_version r t)
  unfolding count_version
  SameRequests-version r t = ground arith

  SameRequests-local : (r : ServiceLogRow F) (t : Tally) → SameRequests t (count_local r t)
  unfolding count_local push_query
  SameRequests-local r t = ground arith

  requested : ServiceLogRow F → Tally → Tally
  requested r t = record t { stats = count_request r t.stats }

  SameRequests-count_row :
      (r : ServiceLogRow F) (t : Tally) → SameRequests (requested r t) (count_row t r)
  unfolding count_row requested
  SameRequests-count_row r t =
      let country = count_country r (requested r t) in
      let city = count_city r country in
      SameRequests-trans (SameRequests-country r (requested r t)) (
        SameRequests-trans (SameRequests-city r country) (
          SameRequests-trans (SameRequests-version r city)
            (SameRequests-local r (count_version r city))))

  module _ (t : Tally) (r : ServiceLogRow F) where
    -- What one round does to the counts of requests.
    pub one_total : (count_row t r).stats.total_requests ≡ t.stats.total_requests + 1
    one_total = (SameRequests-count_row r t).total ∙ unfold requested count_request in refl

    pub one_grid : (count_row t r).stats.grid_requests ≡ t.stats.grid_requests + bit (is_grid r)
    one_grid = (SameRequests-count_row r t).grid ∙ unfold requested count_request in ground arith

    pub one_cluster :
        (count_row t r).stats.cluster_requests ≡ t.stats.cluster_requests + bit (is_cluster r)
    one_cluster =
        (SameRequests-count_row r t).cluster ∙ unfold requested count_request in ground arith

    pub one_local : (count_row t r).stats.local_requests ≡ t.stats.local_requests + bit (is_local r)
    one_local = (SameRequests-count_row r t).local ∙ unfold requested count_request in ground arith

    pub one_global :
        (count_row t r).stats.global_requests ≡ t.stats.global_requests + bit (is_global r)
    one_global =
        (SameRequests-count_row r t).global ∙ unfold requested count_request in ground arith

    pub one_region :
        (count_row t r).stats.region_requests ≡ t.stats.region_requests + bit (is_region r)
    one_region =
        (SameRequests-count_row r t).region ∙ unfold requested count_request in ground arith

    pub one_matrix : (count_row t r).stats.query_matrix ≡ count_matrix r t.stats.query_matrix
    one_matrix = (SameRequests-count_row r t).matrix ∙ unfold requested count_request in refl

    pub one_cell :
        total (count_row t r).stats.query_matrix + bit (is_unclassified r)
        ≡ total t.stats.query_matrix + 1
    one_cell = rw one_matrix (unfold count_matrix in ground arith)

  -- The counts of requests are counts over the rows, whatever the rows hold: all of them, the
  -- grid and the cluster queries, and the local, global and region ones.
  pub aggregate-count :
      (rows : List (ServiceLogRow F)) (top_n : ℕ)
      → let s = aggregate rows top_n in
        (s.total_requests ≡ length rows)
        × (s.grid_requests ≡ count is_grid rows)
        × (s.cluster_requests ≡ count is_cluster rows)
        × (s.local_requests ≡ count is_local rows)
        × (s.global_requests ≡ count is_global rows)
        × (s.region_requests ≡ count is_region rows)
  unfolding aggregate
  aggregate-count rows top_n = (
    count_rows-count (λ t. t.stats.total_requests) (λ _. true) one_total start rows
        ∙ count_true rows,
    count_rows-count (λ t. t.stats.grid_requests) is_grid one_grid start rows ∙ omega arith,
    count_rows-count (λ t. t.stats.cluster_requests) is_cluster one_cluster start rows
        ∙ omega arith,
    count_rows-count (λ t. t.stats.local_requests) is_local one_local start rows ∙ omega arith,
    count_rows-count (λ t. t.stats.global_requests) is_global one_global start rows ∙ omega arith,
    count_rows-count (λ t. t.stats.region_requests) is_region one_region start rows ∙ omega arith,
  )
    where
      count_true : (rs : List (ServiceLogRow F)) → 0 + count (λ _. true) rs ≡ length rs
      count_true [] = refl
      count_true (r ∷ rs) = omega (arith, count_true rs)
