-- ===== src/Stats/Aggregate/Matrix.antt =====
-- The sums of the query matrix (src/stats/aggregate.rs).
use bo_srv_rs.Common.{count, ℕ, ◌+◌, false, List, [], ◌∷◌, ◌≡◌, refl, arith, All}
use bo_srv_rs.Stats.Row.{ServiceLogRow}
use bo_srv_rs.Stats.Aggregate.Types.{
  Tally, start, grid_sum, cluster_sum, local_sum, global_sum, region_sum, total,
}
use bo_srv_rs.Stats.Aggregate.Defs.{count_matrix, count_row, count_rows, aggregate}
use bo_srv_rs.Stats.Aggregate.Totals.{
  is_unclassified, one_total, one_grid, one_cluster, one_local, one_global, one_region, one_matrix,
  one_cell,
}

module _ {F : Type 0} where
  -- Every cell counts a row at most once, and exactly the unclassified rows are in no cell: the
  -- grand total of the matrix and the number of the rows that are neither grid nor cluster
  -- queries, or whose region is below -1, make up the total of the requests.
  pub aggregate_total :
      (rows : List (ServiceLogRow F)) (top_n : ℕ)
      → let s = aggregate rows top_n in
        total s.query_matrix + count is_unclassified rows ≡ s.total_requests
  unfolding aggregate count_rows
  aggregate_total rows top_n = omega (arith, go start rows)
    where
      go :
          (t : Tally) (rs : List (ServiceLogRow F))
          → total (count_rows t rs).stats.query_matrix
              + count is_unclassified rs
              + t.stats.total_requests
            ≡ (count_rows t rs).stats.total_requests + total t.stats.query_matrix
      go t [] = omega arith
      go t (r ∷ rs) = omega (arith, go (count_row t r) rs, one_cell t r, one_total t r)

  abbrev IsClassified : ServiceLogRow F → Type 0
  IsClassified r = is_unclassified r ≡ false

  -- Two numbers that a classified row raises alike.
  balance :
      (left right : Tally → ℕ)
      → ((t : Tally) (r : ServiceLogRow F)
          → IsClassified r
          → left (count_row t r) + right t ≡ left t + right (count_row t r))
      → (t : Tally) (rs : List (ServiceLogRow F)) → All IsClassified rs
      → left (count_rows t rs) + right t ≡ left t + right (count_rows t rs)
  unfolding count_rows
  balance left right one t [] h = omega arith
  balance left right one t (r ∷ rs) h =
      omega (arith, one t r h.0, balance left right one (count_row t r) rs h.1)

  module _ (t : Tally) (r : ServiceLogRow F) (h : IsClassified r) where
    grid_step :
        grid_sum (count_row t r).stats.query_matrix + t.stats.grid_requests
        ≡ grid_sum t.stats.query_matrix + (count_row t r).stats.grid_requests
    grid_step = rw (one_matrix t r, one_grid t r) (unfold count_matrix in ground arith)

    cluster_step :
        cluster_sum (count_row t r).stats.query_matrix + t.stats.cluster_requests
        ≡ cluster_sum t.stats.query_matrix + (count_row t r).stats.cluster_requests
    cluster_step = rw (one_matrix t r, one_cluster t r) (unfold count_matrix in ground arith)

    local_step :
        local_sum (count_row t r).stats.query_matrix + t.stats.local_requests
        ≡ local_sum t.stats.query_matrix + (count_row t r).stats.local_requests
    local_step = rw (one_matrix t r, one_local t r) (unfold count_matrix in ground arith)

    global_step :
        global_sum (count_row t r).stats.query_matrix + t.stats.global_requests
        ≡ global_sum t.stats.query_matrix + (count_row t r).stats.global_requests
    global_step = rw (one_matrix t r, one_global t r) (unfold count_matrix in ground arith)

    region_step :
        region_sum (count_row t r).stats.query_matrix + t.stats.region_requests
        ≡ region_sum t.stats.query_matrix + (count_row t r).stats.region_requests
    region_step = rw (one_matrix t r, one_region t r) (unfold count_matrix in ground arith)

  -- If every row is a grid or a cluster query and no region is below -1, then the rows of the
  -- matrix add up to the grid and cluster requests, its columns to the local, global and region
  -- requests, and all of it to the total of the requests.
  pub aggregate_sums :
      (rows : List (ServiceLogRow F)) (top_n : ℕ)
      → All IsClassified rows
      → let s = aggregate rows top_n in
        (grid_sum s.query_matrix ≡ s.grid_requests)
        × (cluster_sum s.query_matrix ≡ s.cluster_requests)
        × (local_sum s.query_matrix ≡ s.local_requests)
        × (global_sum s.query_matrix ≡ s.global_requests)
        × (region_sum s.query_matrix ≡ s.region_requests)
        × (total s.query_matrix ≡ s.total_requests)
  unfolding aggregate
  aggregate_sums rows top_n h = (
    omega (
      arith,
      balance (λ t. grid_sum t.stats.query_matrix) (λ t. t.stats.grid_requests) grid_step start rows
          h,
    ),
    omega (
      arith,
      balance (λ t. cluster_sum t.stats.query_matrix) (λ t. t.stats.cluster_requests) cluster_step
          start rows h,
    ),
    omega (
      arith,
      balance (λ t. local_sum t.stats.query_matrix) (λ t. t.stats.local_requests) local_step start
          rows h,
    ),
    omega (
      arith,
      balance (λ t. global_sum t.stats.query_matrix) (λ t. t.stats.global_requests) global_step
          start rows h,
    ),
    omega (
      arith,
      balance (λ t. region_sum t.stats.query_matrix) (λ t. t.stats.region_requests) region_step
          start rows h,
    ),
    omega (arith, aggregate_total rows top_n, none_unclassified rows h),
  )
    where
      none_unclassified :
          (rs : List (ServiceLogRow F)) → All IsClassified rs → count is_unclassified rs ≡ 0
      none_unclassified [] w = refl
      none_unclassified (r ∷ rs) w = rw w.0 (omega (arith, none_unclassified rs w.1))
