-- ===== src/Service/Keys.antt =====
-- The keys of the responses in the cache (src/service.rs): one text for each kind of request.
pub mod Distinct
use bo_srv_rs.Common.{◌++◌}
use bo_srv_rs.Common.Int.{ℤ}
use bo_srv_rs.Common.Text.Decimal.{Text, codes, print_ℤ}

-- The values of a request to `get_strikes_grid` within their limits.
pub record GridQuery : Type 0 where
  pub minute_length : ℤ
  pub grid_base_length : ℤ
  pub minute_offset : ℤ
  pub region : ℤ
  pub count_threshold : ℤ

pub record GlobalGridQuery : Type 0 where
  pub minute_length : ℤ
  pub grid_base_length : ℤ
  pub minute_offset : ℤ
  pub count_threshold : ℤ

pub record LocalGridQuery : Type 0 where
  pub x : ℤ
  pub y : ℤ
  pub grid_base_length : ℤ
  pub minute_length : ℤ
  pub minute_offset : ℤ
  pub count_threshold : ℤ
  pub data_area : ℤ

pub record GlobalClusterQuery : Type 0 where
  pub minute_length : ℤ
  pub minute_offset : ℤ
  pub interval_count : ℤ

pub record LocalClusterQuery : Type 0 where
  pub x : ℤ
  pub y : ℤ
  pub minute_length : ℤ
  pub minute_offset : ℤ
  pub data_area : ℤ
  pub interval_count : ℤ

unfoldable pub strikes_grid_key : GridQuery → Text
strikes_grid_key q =
    codes "get_strikes_grid|minute_length="
    ++ (print_ℤ q.minute_length
        ++ (codes "|grid_baselength="
            ++ (print_ℤ q.grid_base_length
                ++ (codes "|minute_offset="
                    ++ (print_ℤ q.minute_offset
                        ++ (codes "|region="
                            ++ (print_ℤ q.region
                                ++ (codes "|count_threshold=" ++ print_ℤ q.count_threshold))))))))

unfoldable pub global_grid_key : GlobalGridQuery → Text
global_grid_key q =
    codes "get_global_strikes_grid|minute_length="
    ++ (print_ℤ q.minute_length
        ++ (codes "|grid_baselength="
            ++ (print_ℤ q.grid_base_length
                ++ (codes "|minute_offset="
                    ++ (print_ℤ q.minute_offset
                        ++ (codes "|count_threshold=" ++ print_ℤ q.count_threshold))))))

unfoldable pub local_grid_key : LocalGridQuery → Text
local_grid_key q =
    codes "get_local_strikes_grid|x="
    ++ (print_ℤ q.x
        ++ (codes "|y="
            ++ (print_ℤ q.y
                ++ (codes "|grid_baselength="
                    ++ (print_ℤ q.grid_base_length
                        ++ (codes "|minute_length="
                            ++ (print_ℤ q.minute_length
                                ++ (codes "|minute_offset="
                                    ++ (print_ℤ q.minute_offset
                                        ++ (codes "|count_threshold="
                                            ++ (print_ℤ q.count_threshold
                                                ++ (codes "|data_area="
                                                    ++ print_ℤ q.data_area))))))))))))

unfoldable pub global_clusters_key : GlobalClusterQuery → Text
global_clusters_key q =
    codes "get_global_clusters|minute_length="
    ++ (print_ℤ q.minute_length
        ++ (codes "|minute_offset="
            ++ (print_ℤ q.minute_offset ++ (codes "|interval_count=" ++ print_ℤ q.interval_count))))

unfoldable pub local_clusters_key : LocalClusterQuery → Text
local_clusters_key q =
    codes "get_local_clusters|x="
    ++ (print_ℤ q.x
        ++ (codes "|y="
            ++ (print_ℤ q.y
                ++ (codes "|minute_length="
                    ++ (print_ℤ q.minute_length
                        ++ (codes "|minute_offset="
                            ++ (print_ℤ q.minute_offset
                                ++ (codes "|data_area="
                                    ++ (print_ℤ q.data_area
                                        ++ (codes "|interval_count="
                                            ++ print_ℤ q.interval_count))))))))))
