-- ===== src/Stats/Aggregate/Types.antt =====
-- The types of src/stats/aggregate.rs and what they derive.
use bo_srv_rs.Common.{ℕ, ◌+◌, Bool, not, ◌&&◌, List, [], Option, none, some, ◌==◌}
use bo_srv_rs.Common.Int.{ℤ, pos, ◌==ℤ◌, max_ℤ}
use bo_srv_rs.Common.Text.Decimal.{Text}
use bo_srv_rs.Stats.Counter.{Counter}
use bo_srv_rs.Stats.Row.{query_type_grid}

pub record TopEntry : Type 0 where
  pub label : Text
  pub count : ℕ

pub record DataAreaBucket : Type 0 where
  pub data_area : ℤ
  pub count : ℕ

pub record LocalQuery : Type 0 where
  pub x : ℤ
  pub y : ℤ
  pub data_area : ℤ
  pub grid_baselength : Option ℤ
  pub minute_length : ℤ
  pub query_type : ℕ

abbrev pub offline_minute_length : ℤ
offline_minute_length = pos 10

abbrev pub is_grid_query : LocalQuery → Bool
is_grid_query q = q.query_type == query_type_grid

abbrev pub is_offline : LocalQuery → Bool
is_offline q = is_grid_query q && q.minute_length ==ℤ offline_minute_length

abbrev pub is_interactive : LocalQuery → Bool
is_interactive q = not (is_offline q)

pub record QueryMatrix : Type 0 where
  pub grid_local : ℕ
  pub grid_global : ℕ
  pub grid_region : ℕ
  pub cluster_local : ℕ
  pub cluster_global : ℕ
  pub cluster_region : ℕ

abbrev pub grid_sum : QueryMatrix → ℕ
grid_sum m = m.grid_local + m.grid_global + m.grid_region

abbrev pub cluster_sum : QueryMatrix → ℕ
cluster_sum m = m.cluster_local + m.cluster_global + m.cluster_region

abbrev pub local_sum : QueryMatrix → ℕ
local_sum m = m.grid_local + m.cluster_local

abbrev pub global_sum : QueryMatrix → ℕ
global_sum m = m.grid_global + m.cluster_global

abbrev pub region_sum : QueryMatrix → ℕ
region_sum m = m.grid_region + m.cluster_region

abbrev pub total : QueryMatrix → ℕ
total m = grid_sum m + cluster_sum m

pub record ServiceLogStats : Type 0 where
  pub total_requests : ℕ
  pub grid_requests : ℕ
  pub cluster_requests : ℕ
  pub local_requests : ℕ
  pub global_requests : ℕ
  pub region_requests : ℕ
  pub query_matrix : QueryMatrix
  pub offline_requests : ℕ
  pub interactive_requests : ℕ
  pub unknown_country : ℕ
  pub unknown_city : ℕ
  pub unknown_version : ℕ
  pub countries : List TopEntry
  pub cities : List TopEntry
  pub versions : List TopEntry
  pub data_area_distribution : List DataAreaBucket
  pub local_queries : List LocalQuery

-- The variables of the loop.
pub record Tally : Type 0 where
  pub stats : ServiceLogStats
  pub countries : Counter Text
  pub cities : Counter Text
  pub versions : Counter Text
  pub data_areas : Counter ℤ

abbrev pub start : Tally
start = record {
  stats = record {
    total_requests = 0;
    grid_requests = 0;
    cluster_requests = 0;
    local_requests = 0;
    global_requests = 0;
    region_requests = 0;
    query_matrix = record {
      grid_local = 0;
      grid_global = 0;
      grid_region = 0;
      cluster_local = 0;
      cluster_global = 0;
      cluster_region = 0;
    };
    offline_requests = 0;
    interactive_requests = 0;
    unknown_country = 0;
    unknown_city = 0;
    unknown_version = 0;
    countries = [];
    cities = [];
    versions = [];
    data_area_distribution = [];
    local_queries = [];
  };
  countries = [];
  cities = [];
  versions = [];
  data_areas = [];
}

-- `row.data_area.unwrap_or(5).max(5)`.
abbrev pub area_of : Option ℤ → ℤ
area_of none = max_ℤ (pos 5) (pos 5)
area_of (some a) = max_ℤ a (pos 5)
