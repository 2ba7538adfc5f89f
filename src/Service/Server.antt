-- ===== src/Service/Server.antt =====
-- The state of `Service` (src/service.rs) that a request reads or changes. Each cache has a store
-- of its own; the database and the clock are read once for each request.
use bo_srv_rs.Common.{ℕ, List, Option, if◌then◌else◌}
use bo_srv_rs.Common.Int.{ℤ, pos, ◌==ℤ◌}
use bo_srv_rs.Common.Result.{Result}
use bo_srv_rs.Common.Text.Decimal.{Text}
use bo_srv_rs.Cache.{Store}
use bo_srv_rs.Cache.Layout.{ServiceCache}
use bo_srv_rs.ServiceLog.Queue.{UsageLogSender}
use bo_srv_rs.Service.Keys.{
  GridQuery, GlobalGridQuery, LocalGridQuery, GlobalClusterQuery, LocalClusterQuery,
}

pub data ServiceError : Type 0 where
  database : Text → ServiceError
  missing_column : Text → ServiceError
  histogram_index : ℤ → ServiceError

-- The caches of one kind of request: for the current minutes, and for the past.
pub record Ages (C : Type 0) : Type 0 where
  pub current : Store Text C
  pub history : Store Text C

pub record Service (C Q : Type 0) : Type 0 where
  pub forbidden_ips : List Text
  pub cache : ServiceCache
  pub check_count : ℤ
  pub service_log : Option (UsageLogSender Q)
  pub strikes : Ages C
  pub global_strikes : Ages C
  pub local_strikes : Ages C
  pub global_clusters : Ages C
  pub local_clusters : Ages C

-- What the five computations of a response return when they run: `Service::get_strikes_grid` and
-- its four companions, which query the database.
pub record Backend (J : Type 0) : Type 0 where
  pub strikes_grid : GridQuery → Result J ServiceError
  pub global_strikes_grid : GlobalGridQuery → Result J ServiceError
  pub local_strikes_grid : LocalGridQuery → Result J ServiceError
  pub global_clusters : GlobalClusterQuery → Result J ServiceError
  pub local_clusters : LocalClusterQuery → Result J ServiceError

-- The time that the cache reads, in nanoseconds, and the time that the usage log reads.
pub record Clock : Type 0 where
  pub cache_now : ℕ
  pub log_now_us : ℤ

module _ {C : Type 0} where
  -- The store of the cache that the selectors of `ServiceCache` pick for an offset.
  abbrev pub store_at : ℤ → Ages C → Store Text C
  store_at minute_offset ages = if minute_offset ==ℤ pos 0 then ages.current else ages.history

  abbrev pub put_store : ℤ → Store Text C → Ages C → Ages C
  put_store minute_offset s ages =
      if minute_offset ==ℤ pos 0 then record ages { current = s } else record ages { history = s }
