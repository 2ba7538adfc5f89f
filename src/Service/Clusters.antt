-- ===== src/Service/Clusters.antt =====
-- The two cluster handlers, `check` and `get_strikes` (src/service.rs), and the handlers as
-- `invoke` of src/jsonrpc.rs calls them.
use bo_srv_rs.Common.{[], ◌∷◌, Option, none, some, ◌>>=◌}
use bo_srv_rs.Common.Int.{pos, ◌+ℤ◌}
use bo_srv_rs.Common.Result.{Result, ok}
use bo_srv_rs.Common.Text.Decimal.{Text, codes}
use bo_srv_rs.Cache.{OnceCell, get_result_at}
use bo_srv_rs.Cache.Layout.{global_clusters, local_clusters}
use bo_srv_rs.Json.{Json}
use bo_srv_rs.Rpc.Invoke.{Handlers}
use bo_srv_rs.Service.Access.{forbidden_client_reason}
use bo_srv_rs.Service.Client.{request_client, user_agent_client}
use bo_srv_rs.Service.Keys.{
  GlobalClusterQuery, LocalClusterQuery, global_clusters_key, local_clusters_key,
}
use bo_srv_rs.Service.Params.{
  limit_global_clusters, limit_local_clusters, to_int, global_cluster_params, local_cluster_params,
}
use bo_srv_rs.Service.Server.{Service, ServiceError, store_at, put_store}
use bo_srv_rs.ServiceLog.Entry.{ServiceLogEntry, global_cluster_entry, local_cluster_entry}
use bo_srv_rs.ServiceLog.Queue.{Channel}
use bo_srv_rs.Transport.Headers.{Request}
use bo_srv_rs.Service.Handling.{Surroundings, Answer, block, respond, no_result, strip_header}
use bo_srv_rs.Service.Grids.{
  jsonrpc_get_strikes_grid, jsonrpc_get_strikes_raster, jsonrpc_get_global_strikes_grid,
  jsonrpc_get_local_strikes_grid,
}

module _ (j : Json) {C F Q : Type 0} (dec : Discrete Text)
    (once : OnceCell C (Result j.Value ServiceError)) (channel : Channel Q (ServiceLogEntry F))
    (env : Surroundings j.Value F) where
  open j use {Value, object_value, int_value}

  unfoldable pub serve_global_clusters :
      Request → GlobalClusterQuery → Service C Q → Answer Value C Q
  unfolding limit_global_clusters
  serve_global_clusters r p s =
      elim (forbidden_client_reason s.forbidden_ips r (request_client r) (user_agent_client r)) [
        | some reason ↦ (s, (block env r reason, ok (no_result j)))
        | none ↦
            let q = limit_global_clusters p in
            let (store, result) =
              get_result_at dec once (global_clusters s.cache q.minute_offset)
                (global_clusters_key q) (env.backend.global_clusters q) env.clock.cache_now
                (store_at q.minute_offset s.global_clusters) in
            respond channel strip_header
              (λ response.
                global_cluster_entry env.clock.log_now_us q.minute_offset q.interval_count
                  (request_client r) r.user_agent)
              r (record s { global_clusters = put_store q.minute_offset store s.global_clusters })
              result
      ]

  unfoldable pub jsonrpc_get_global_clusters :
      Request
      → (minute_length minute_offset interval_count : Value) → Service C Q
      → Answer Value C Q
  unfolding serve_global_clusters global_cluster_params
  jsonrpc_get_global_clusters r minute_length minute_offset interval_count s =
      elim (global_cluster_params j minute_length minute_offset interval_count) [
        | none ↦ (s, (r, ok (no_result j)))
        | some p ↦ serve_global_clusters r p s
      ]

  unfoldable pub serve_local_clusters : Request → LocalClusterQuery → Service C Q → Answer Value C Q
  unfolding limit_local_clusters
  serve_local_clusters r p s =
      elim (forbidden_client_reason s.forbidden_ips r (request_client r) (user_agent_client r)) [
        | some reason ↦ (s, (block env r reason, ok (no_result j)))
        | none ↦
            let q = limit_local_clusters p in
            let (store, result) =
              get_result_at dec once (local_clusters s.cache q.minute_offset) (local_clusters_key q)
                (env.backend.local_clusters q) env.clock.cache_now
                (store_at q.minute_offset s.local_clusters) in
            respond channel strip_header
              (λ response.
                local_cluster_entry env.clock.log_now_us q.minute_offset q.interval_count
                  (request_client r) r.user_agent q.x q.y q.data_area)
              r (record s { local_clusters = put_store q.minute_offset store s.local_clusters })
              result
      ]

  unfoldable pub jsonrpc_get_local_clusters :
      Request
      → (x y minute_length minute_offset data_area interval_count : Value) → Service C Q
      → Answer Value C Q
  unfolding serve_local_clusters local_cluster_params
  jsonrpc_get_local_clusters r x y minute_length minute_offset data_area interval_count s =
      elim (local_cluster_params j x y minute_length minute_offset data_area interval_count) [
        | none ↦ (s, (r, ok (no_result j)))
        | some p ↦ serve_local_clusters r p s
      ]

  -- `check`.
  unfoldable pub check : Service C Q → Service C Q × Value
  check s =
      let count = s.check_count +ℤ pos 1 in
      (record s { check_count = count }, object_value ((codes "count", int_value count) ∷ []))

  -- `get_strikes` has no value whatever it is asked.
  unfoldable pub get_strikes : Request → (minute_length id_or_offset : Value) → Option Value
  unfolding to_int
  get_strikes r minute_length id_or_offset = do
    _ ← to_int j minute_length
    _ ← to_int j id_or_offset
    none

  -- The service as the dispatch of JSON-RPC calls it.
  abbrev pub service_handlers : Handlers Value (Service C Q) ServiceError
  unfolding check get_strikes jsonrpc_get_strikes_grid jsonrpc_get_strikes_raster
      jsonrpc_get_global_strikes_grid jsonrpc_get_local_strikes_grid jsonrpc_get_global_clusters
      jsonrpc_get_local_clusters
  service_handlers = record {
    check_call = check;
    strikes = get_strikes;
    strikes_grid = jsonrpc_get_strikes_grid j dec once channel env;
    strikes_raster = jsonrpc_get_strikes_raster j dec once channel env;
    global_strikes_grid = jsonrpc_get_global_strikes_grid j dec once channel env;
    local_strikes_grid = jsonrpc_get_local_strikes_grid j dec once channel env;
    global_clusters = jsonrpc_get_global_clusters;
    local_clusters = jsonrpc_get_local_clusters;
    error_text = env.error_text;
  }
