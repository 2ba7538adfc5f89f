-- ===== src/ServiceLog/Entry.antt =====
-- `ServiceLogEntry` and its constructors (src/service_log.rs). A float is a value of a type `F`;
-- a `char` is its code point.
use bo_srv_rs.Common.{ℕ, Bool, true, false, ◌&&◌, ◌||◌, Option, none, some, ◌>>=◌, if◌then◌else◌}
use bo_srv_rs.Common.Int.{ℤ, pos, negsuc, ◌*ℤ◌, ◌==ℤ◌, wrap_i64}
use bo_srv_rs.Common.Text.Decimal.{Text, codes, parse_i64}
use bo_srv_rs.Common.Text.Order.{text_eq}
use bo_srv_rs.Common.Text.Split.{starts_with, first_piece, rsplit_once}
use bo_srv_rs.Stats.Row.{query_type_grid, query_type_cluster}

pub record LocalGridLog : Type 0 where
  pub x : ℤ
  pub y : ℤ
  pub data_area : ℤ

pub record ServiceLogEntry (F : Type 0) : Type 0 where
  pub now_us : ℤ
  pub minute_length : ℤ
  pub grid_baselength : Option ℤ
  pub minute_offset : ℤ
  pub region : ℤ
  pub count_threshold : Option ℤ
  pub fill : Option F
  pub query_type : ℕ
  pub client : Option Text
  pub user_agent : Option Text
  pub local : Option LocalGridLog

module _ {F : Type 0} where
  unfoldable pub region_entry :
      (now_us minute_length grid_baselength minute_offset region count_threshold : ℤ) (fill : F)
      (client user_agent : Option Text)
      → ServiceLogEntry F
  region_entry now_us minute_length grid_baselength minute_offset region count_threshold fill client
        user_agent =
      record {
        now_us = now_us;
        minute_length = minute_length;
        grid_baselength = some grid_baselength;
        minute_offset = minute_offset;
        region = region;
        count_threshold = some count_threshold;
        fill = some fill;
        query_type = query_type_grid;
        client = client;
        user_agent = user_agent;
        local = none;
      }

  unfoldable pub global_entry :
      (now_us minute_length grid_baselength minute_offset count_threshold : ℤ) (fill : F)
      (client user_agent : Option Text)
      → ServiceLogEntry F
  global_entry now_us minute_length grid_baselength minute_offset count_threshold fill client
        user_agent =
      record {
        now_us = now_us;
        minute_length = minute_length;
        grid_baselength = some grid_baselength;
        minute_offset = minute_offset;
        region = pos 0;
        count_threshold = some count_threshold;
        fill = some fill;
        query_type = query_type_grid;
        client = client;
        user_agent = user_agent;
        local = none;
      }

  unfoldable pub local_entry :
      (now_us minute_length grid_baselength minute_offset count_threshold : ℤ) (fill : F)
      (client user_agent : Option Text) (x y data_area : ℤ)
      → ServiceLogEntry F
  local_entry now_us minute_length grid_baselength minute_offset count_threshold fill client
        user_agent x y data_area =
      record {
        now_us = now_us;
        minute_length = minute_length;
        grid_baselength = some grid_baselength;
        minute_offset = minute_offset;
        region = negsuc 0;
        count_threshold = some count_threshold;
        fill = some fill;
        query_type = query_type_grid;
        client = client;
        user_agent = user_agent;
        local = some (record { x = x; y = y; data_area = data_area });
      }

  unfoldable pub global_cluster_entry :
      (now_us minute_offset interval_count : ℤ) (client user_agent : Option Text)
      → ServiceLogEntry F
  global_cluster_entry now_us minute_offset interval_count client user_agent = record {
    now_us = now_us;
    minute_length = wrap_i64 (interval_count *ℤ pos 10);
    grid_baselength = none;
    minute_offset = minute_offset;
    region = pos 0;
    count_threshold = none;
    fill = none;
    query_type = query_type_cluster;
    client = client;
    user_agent = user_agent;
    local = none;
  }

  unfoldable pub local_cluster_entry :
      (now_us minute_offset interval_count : ℤ) (client user_agent : Option Text)
      (x y data_area : ℤ)
      → ServiceLogEntry F
  local_cluster_entry now_us minute_offset interval_count client user_agent x y data_area = record {
    now_us = now_us;
    minute_length = wrap_i64 (interval_count *ℤ pos 10);
    grid_baselength = none;
    minute_offset = minute_offset;
    region = negsuc 0;
    count_threshold = none;
    fill = none;
    query_type = query_type_cluster;
    client = client;
    user_agent = user_agent;
    local = some (record { x = x; y = y; data_area = data_area });
  }

-- `USER_AGENT_PREFIX` and `IOS_USER_AGENT_PREFIX` of src/service.rs.
abbrev pub user_agent_prefix : Text
user_agent_prefix = codes "bo-android-"

abbrev pub ios_user_agent_prefix : Text
ios_user_agent_prefix = codes "bo-ios-"

unfoldable pub user_agent_version : Option Text → Option ℤ
user_agent_version user_agent = do
  agent ← user_agent
  (prefix, version) ← rsplit_once b'-' (first_piece b' ' agent)
  if text_eq prefix (codes "bo-android") || text_eq prefix (codes "bo-ios")
      then (do v ← parse_i64 version; if v ==ℤ pos 0 then none else some v)
      else none

abbrev is_some {ℓ} : {A : Type ℓ} → Option A → Bool
is_some none = false
is_some (some _) = true

unfoldable pub client_platform : Option Text → Option ℤ → Text
client_platform none version = codes "-"
client_platform (some agent) version =
    let first = first_piece b' ' agent in
    if starts_with user_agent_prefix first
    then codes "A"
    else if starts_with ios_user_agent_prefix first && is_some version
    then codes "I"
    else codes "-"
