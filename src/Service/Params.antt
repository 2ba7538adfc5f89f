-- ===== src/Service/Params.antt =====
-- `to_int` (src/service.rs) and the values of a request: first as the client gives them, then
-- within their limits.
use bo_srv_rs.Common.{true, false, Option, none, some, ◌>>=◌}
use bo_srv_rs.Common.Int.{ℤ, pos, max_ℤ}
use bo_srv_rs.Common.Text.Decimal.{parse_i64}
use bo_srv_rs.Common.Text.Trim.{trim}
use bo_srv_rs.Json.{Json, View}
use bo_srv_rs.Service.Access.{min_grid_base_length, global_min_grid_base_length}
use bo_srv_rs.Service.Keys.{
  GridQuery, GlobalGridQuery, LocalGridQuery, GlobalClusterQuery, LocalClusterQuery,
}
use bo_srv_rs.Service.Limits.{enforce, minute_constraints, force_range, round_max_5}

abbrev pub max_region : ℤ
max_region = pos 7

-- The limits of `jsonrpc_get_strikes_grid` and of its four companions.
unfoldable pub limit_grid : GridQuery → GridQuery
unfolding enforce force_range
limit_grid p =
    let (length, offset) = enforce minute_constraints p.minute_length p.minute_offset in
    record {
      minute_length = length;
      grid_base_length = max_ℤ min_grid_base_length p.grid_base_length;
      minute_offset = offset;
      region = force_range (pos 1) p.region max_region;
      count_threshold = max_ℤ (pos 0) p.count_threshold;
    }

unfoldable pub limit_global_grid : GlobalGridQuery → GlobalGridQuery
unfolding enforce
limit_global_grid p =
    let (length, offset) = enforce minute_constraints p.minute_length p.minute_offset in
    record {
      minute_length = length;
      grid_base_length = max_ℤ global_min_grid_base_length p.grid_base_length;
      minute_offset = offset;
      count_threshold = max_ℤ (pos 0) p.count_threshold;
    }

unfoldable pub limit_local_grid : LocalGridQuery → LocalGridQuery
unfolding enforce round_max_5
limit_local_grid p =
    let (length, offset) = enforce minute_constraints p.minute_length p.minute_offset in
    record {
      x = p.x;
      y = p.y;
      grid_base_length = max_ℤ min_grid_base_length p.grid_base_length;
      minute_length = length;
      minute_offset = offset;
      count_threshold = max_ℤ (pos 0) p.count_threshold;
      data_area = round_max_5 p.data_area;
    }

unfoldable pub limit_global_clusters : GlobalClusterQuery → GlobalClusterQuery
unfolding enforce
limit_global_clusters p =
    let (length, offset) = enforce minute_constraints p.minute_length p.minute_offset in
    record {
      minute_length = length;
      minute_offset = offset;
      interval_count = max_ℤ (pos 1) p.interval_count;
    }

unfoldable pub limit_local_clusters : LocalClusterQuery → LocalClusterQuery
unfolding enforce round_max_5
limit_local_clusters p =
    let (length, offset) = enforce minute_constraints p.minute_length p.minute_offset in
    record {
      x = p.x;
      y = p.y;
      minute_length = length;
      minute_offset = offset;
      data_area = round_max_5 p.data_area;
      interval_count = max_ℤ (pos 1) p.interval_count;
    }

module _ (j : Json) where
  open j use {Value, view}

  unfoldable pub to_int : Value → Option ℤ
  unfolding parse_i64 trim
  to_int v = elim (view v) [
    | View.number n ↦ elim n.as_i64 [ some i ↦ some i | none ↦ n.truncated ]
    | View.string s ↦ parse_i64 (trim s)
    | View.boolean b ↦ some (elim b [ true ↦ pos 1 | false ↦ pos 0 ])
    | _ ↦ none
  ]

  unfoldable pub grid_params :
      (minute_length grid_base_length minute_offset region count_threshold : Value)
      → Option GridQuery
  unfolding to_int
  grid_params minute_length grid_base_length minute_offset region count_threshold = do
    a ← to_int minute_length
    b ← to_int grid_base_length
    c ← to_int minute_offset
    d ← to_int region
    e ← to_int count_threshold
    some (record {
      minute_length = a;
      grid_base_length = b;
      minute_offset = c;
      region = d;
      count_threshold = e;
    })

  unfoldable pub global_grid_params :
      (minute_length grid_base_length minute_offset count_threshold : Value)
      → Option GlobalGridQuery
  unfolding to_int
  global_grid_params minute_length grid_base_length minute_offset count_threshold = do
    a ← to_int minute_length
    b ← to_int grid_base_length
    c ← to_int minute_offset
    d ← to_int count_threshold
    some
        (record { minute_length = a; grid_base_length = b; minute_offset = c; count_threshold = d })

  unfoldable pub local_grid_params :
      (x y grid_base_length minute_length minute_offset count_threshold data_area : Value)
      → Option LocalGridQuery
  unfolding to_int
  local_grid_params x y grid_base_length minute_length minute_offset count_threshold data_area = do
    a ← to_int x
    b ← to_int y
    c ← to_int grid_base_length
    d ← to_int minute_length
    e ← to_int minute_offset
    f ← to_int count_threshold
    g ← to_int data_area
    some (record {
      x = a;
      y = b;
      grid_base_length = c;
      minute_length = d;
      minute_offset = e;
      count_threshold = f;
      data_area = g;
    })

  unfoldable pub global_cluster_params :
      (minute_length minute_offset interval_count : Value) → Option GlobalClusterQuery
  unfolding to_int
  global_cluster_params minute_length minute_offset interval_count = do
    a ← to_int minute_length
    b ← to_int minute_offset
    c ← to_int interval_count
    some (record { minute_length = a; minute_offset = b; interval_count = c })

  unfoldable pub local_cluster_params :
      (x y minute_length minute_offset data_area interval_count : Value) → Option LocalClusterQuery
  unfolding to_int
  local_cluster_params x y minute_length minute_offset data_area interval_count = do
    a ← to_int x
    b ← to_int y
    c ← to_int minute_length
    d ← to_int minute_offset
    e ← to_int data_area
    f ← to_int interval_count
    some (record {
      x = a;
      y = b;
      minute_length = c;
      minute_offset = d;
      data_area = e;
      interval_count = f;
    })
