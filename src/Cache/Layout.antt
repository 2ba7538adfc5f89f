-- ===== src/Cache/Layout.antt =====
-- `ServiceCache` (src/cache.rs): one `ObjectCache` for each kind of request and age, and the
-- choice between them. The fields hold the settings of the caches; each has a store of its own.
use bo_srv_rs.Common.{ℕ, ◌*◌, Bool, true, false, Option, none, some, ◌≡◌, arith, if◌then◌else◌}
use bo_srv_rs.Common.Int.{ℤ, pos, ◌==ℤ◌}
use bo_srv_rs.Cache.Defs.{ObjectCache}

pub record ServiceCache : Type 0 where
  pub strikes_grid : ObjectCache
  pub strikes_history_grid : ObjectCache
  pub global_strikes_grid : ObjectCache
  pub global_strikes_history_grid : ObjectCache
  pub local_strikes_grid : ObjectCache
  pub local_strikes_history_grid : ObjectCache
  pub global_clusters_current : ObjectCache
  pub global_clusters_history : ObjectCache
  pub local_clusters_current : ObjectCache
  pub local_clusters_history : ObjectCache
  pub histogram : ObjectCache

abbrev cleanup_seconds : ℕ
cleanup_seconds = 300

abbrev ttl_short : ℕ
ttl_short = 20

abbrev ttl_long : ℕ
ttl_long = 60

abbrev local_cache_size_current : ℕ
local_cache_size_current = 100

abbrev local_cache_size_history : ℕ
local_cache_size_history = 400

-- `ObjectCache::new`; the state of a new cache is `empty`.
unfoldable pub new_cache : ℕ → Option ℕ → Option ℕ → ObjectCache
new_cache ttl_seconds size cleanup_period = record {
  ttl_seconds = ttl_seconds;
  size = size;
  cleanup_period = cleanup_period;
}

unfoldable pub new_with_cleanup : Option ℕ → ServiceCache
unfolding new_cache
new_with_cleanup cleanup_period = record {
  strikes_grid = new_cache ttl_short none cleanup_period;
  strikes_history_grid = new_cache ttl_long none cleanup_period;
  global_strikes_grid = new_cache ttl_short none cleanup_period;
  global_strikes_history_grid = new_cache ttl_long none cleanup_period;
  local_strikes_grid = new_cache ttl_short (some local_cache_size_current) cleanup_period;
  local_strikes_history_grid = new_cache ttl_long (some local_cache_size_history) cleanup_period;
  global_clusters_current = new_cache ttl_short none cleanup_period;
  global_clusters_history = new_cache ttl_long none cleanup_period;
  local_clusters_current = new_cache ttl_short (some local_cache_size_current) cleanup_period;
  local_clusters_history = new_cache ttl_long (some local_cache_size_history) cleanup_period;
  histogram = new_cache ttl_long none cleanup_period;
}

-- `ServiceCache::new`; the cleanup period is in nanoseconds, as every time of the model.
unfoldable pub new_service_cache : ServiceCache
unfolding new_with_cleanup
new_service_cache = new_with_cleanup (some (cleanup_seconds * 1000000000))

unfoldable pub strikes : ServiceCache → ℤ → ObjectCache
strikes c minute_offset = if minute_offset ==ℤ pos 0 then c.strikes_grid else c.strikes_history_grid

unfoldable pub global_strikes : ServiceCache → ℤ → ObjectCache
global_strikes c minute_offset =
    if minute_offset ==ℤ pos 0 then c.global_strikes_grid else c.global_strikes_history_grid

unfoldable pub local_strikes : ServiceCache → ℤ → ObjectCache
local_strikes c minute_offset =
    if minute_offset ==ℤ pos 0 then c.local_strikes_grid else c.local_strikes_history_grid

unfoldable pub global_clusters : ServiceCache → ℤ → ObjectCache
global_clusters c minute_offset =
    if minute_offset ==ℤ pos 0 then c.global_clusters_current else c.global_clusters_history

unfoldable pub local_clusters : ServiceCache → ℤ → ObjectCache
local_clusters c minute_offset =
    if minute_offset ==ℤ pos 0 then c.local_clusters_current else c.local_clusters_history

-- The settings that a request of age `minute_offset` runs under: a short life for the current
-- minute, a long one for history, and a bound on the entries only for local requests.
abbrev pub expected : Bool → ℤ → ObjectCache
expected is_local minute_offset = record {
  ttl_seconds = if minute_offset ==ℤ pos 0 then 20 else 60;
  size = if is_local then some (if minute_offset ==ℤ pos 0 then 100 else 400) else none;
  cleanup_period = some (300 * 1000000000);
}

-- For every age of a request, each of the five selectors of the service's cache picks a cache
-- with these settings: entries live 20 seconds for the current minute (an offset of 0) and 60
-- for any other, also a negative one; a local cache holds 100 current and 400 historic entries
-- and the others are not bounded; expired entries are swept every 300 seconds.
pub selected_settings :
    (minute_offset : ℤ)
    → (strikes new_service_cache minute_offset ≡ expected false minute_offset)
      × (global_strikes new_service_cache minute_offset ≡ expected false minute_offset)
      × (global_clusters new_service_cache minute_offset ≡ expected false minute_offset)
      × (local_strikes new_service_cache minute_offset ≡ expected true minute_offset)
      × (local_clusters new_service_cache minute_offset ≡ expected true minute_offset)
unfolding new_service_cache strikes global_strikes local_strikes global_clusters local_clusters
selected_settings minute_offset = ground arith
