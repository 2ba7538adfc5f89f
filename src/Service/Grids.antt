-- ===== src/Service/Grids.antt =====
-- The three grid handlers (src/service.rs). No other task runs between the sections of a request.
-- The metrics that a handler emits are left out.
use bo_srv_rs.Common.{none, some}
use bo_srv_rs.Common.Int.{pos}
use bo_srv_rs.Common.Result.{Result, ok}
use bo_srv_rs.Common.Text.Decimal.{Text}
use bo_srv_rs.Cache.{OnceCell, get_result_at}
use bo_srv_rs.Cache.Layout.{strikes, global_strikes, local_strikes}
use bo_srv_rs.Json.{Json}
use bo_srv_rs.Service.Access.{forbidden_reason, min_grid_base_length, global_min_grid_base_length}
use bo_srv_rs.Service.Client.{request_client, user_agent_client}
use bo_srv_rs.Service.Keys.{
  GridQuery, GlobalGridQuery, LocalGridQuery, strikes_grid_key, global_grid_key, local_grid_key,
}
use bo_srv_rs.Service.Params.{
  limit_grid, limit_global_grid, limit_local_grid, grid_params, global_grid_params,
  local_grid_params,
}
use bo_srv_rs.Service.Server.{Service, ServiceError, store_at, put_store}
use bo_srv_rs.ServiceLog.Entry.{ServiceLogEntry, region_entry, global_entry, local_entry}
use bo_srv_rs.ServiceLog.Queue.{Channel}
use bo_srv_rs.Transport.Headers.{Request}
use bo_srv_rs.Service.Handling.{
  Surroundings, Answer, block, respond, fill, no_result, strip_header, keep_header,
}

module _ (j : Json) {C F Q : Type 0} (dec : Discrete Text)
    (once : OnceCell C (Result j.Value ServiceError)) (channel : Channel Q (ServiceLogEntry F))
    (env : Surroundings j.Value F) where
  open j use {Value, object_value, int_value}

  unfoldable pub serve_strikes_grid : Request → GridQuery → Service C Q → Answer Value C Q
  unfolding limit_grid
  serve_strikes_grid r p s =
      elim (forbidden_reason s.forbidden_ips r (request_client r) (user_agent_client r)
        p.grid_base_length min_grid_base_length) [
          | some reason ↦ (s, (block env r reason, ok (no_result j)))
          | none ↦
              let q = limit_grid p in
              let (store, result) =
                get_result_at dec once (strikes s.cache q.minute_offset) (strikes_grid_key q)
                  (env.backend.strikes_grid q) env.clock.cache_now
                  (store_at q.minute_offset s.strikes) in
              respond channel strip_header
                (λ response.
                  region_entry env.clock.log_now_us q.minute_length p.grid_base_length
                    q.minute_offset q.region q.count_threshold (fill env response)
                    (request_client r) r.user_agent)
                r (record s { strikes = put_store q.minute_offset store s.strikes }) result
        ]

  unfoldable pub jsonrpc_get_strikes_grid :
      Request
      → (minute_length grid_base_length minute_offset region count_threshold : Value) → Service C Q
      → Answer Value C Q
  unfolding serve_strikes_grid grid_params
  jsonrpc_get_strikes_grid r minute_length grid_base_length minute_offset region count_threshold s =
      elim (grid_params j minute_length grid_base_length minute_offset region count_threshold) [
        | none ↦ (s, (r, ok (no_result j)))
        | some p ↦ serve_strikes_grid r p s
      ]

  unfoldable pub jsonrpc_get_strikes_raster :
      Request
      → (minute_length grid_base_length minute_offset region : Value) → Service C Q
      → Answer Value C Q
  unfolding jsonrpc_get_strikes_grid
  jsonrpc_get_strikes_raster r minute_length grid_base_length minute_offset region s =
      jsonrpc_get_strikes_grid r minute_length grid_base_length minute_offset region
        (int_value (pos 0)) s

  unfoldable pub serve_global_strikes_grid :
      Request → GlobalGridQuery → Service C Q → Answer Value C Q
  unfolding limit_global_grid
  serve_global_strikes_grid r p s =
      elim (forbidden_reason s.forbidden_ips r (request_client r) (user_agent_client r)
        p.grid_base_length global_min_grid_base_length) [
          | some reason ↦ (s, (block env r reason, ok (no_result j)))
          | none ↦
              let q = limit_global_grid p in
              let (store, result) =
                get_result_at dec once (global_strikes s.cache q.minute_offset) (global_grid_key q)
                  (env.backend.global_strikes_grid q) env.clock.cache_now
                  (store_at q.minute_offset s.global_strikes) in
              respond channel strip_header
                (λ response.
                  global_entry env.clock.log_now_us q.minute_length p.grid_base_length
                    q.minute_offset q.count_threshold (fill env response) (request_client r)
                    r.user_agent)
                r (record s { global_strikes = put_store q.minute_offset store s.global_strikes })
                result
        ]

  unfoldable pub jsonrpc_get_global_strikes_grid :
      Request
      → (minute_length grid_base_length minute_offset count_threshold : Value) → Service C Q
      → Answer Value C Q
  unfolding serve_global_strikes_grid global_grid_params
  jsonrpc_get_global_strikes_grid r minute_length grid_base_length minute_offset count_threshold s =
      elim (global_grid_params j minute_length grid_base_length minute_offset count_threshold) [
        | none ↦ (s, (r, ok (no_result j)))
        | some p ↦ serve_global_strikes_grid r p s
      ]

  unfoldable pub serve_local_strikes_grid :
      Request → LocalGridQuery → Service C Q → Answer Value C Q
  unfolding limit_local_grid
  serve_local_strikes_grid r p s =
      elim (forbidden_reason s.forbidden_ips r (request_client r) (user_agent_client r)
        p.grid_base_length min_grid_base_length) [
          | some reason ↦ (s, (block env r reason, ok (no_result j)))
          | none ↦
              let q = limit_local_grid p in
              let (store, result) =
                get_result_at dec once (local_strikes s.cache q.minute_offset) (local_grid_key q)
                  (env.backend.local_strikes_grid q) env.clock.cache_now
                  (store_at q.minute_offset s.local_strikes) in
              respond channel keep_header
                (λ response.
                  local_entry env.clock.log_now_us q.minute_length p.grid_base_length
                    q.minute_offset q.count_threshold (fill env response) (request_client r)
                    r.user_agent q.x q.y q.data_area)
                r (record s { local_strikes = put_store q.minute_offset store s.local_strikes })
                result
        ]

  unfoldable pub jsonrpc_get_local_strikes_grid :
      Request
      → (x y grid_base_length minute_length minute_offset count_threshold data_area : Value)
      → Service C Q
      → Answer Value C Q
  unfolding serve_local_strikes_grid local_grid_params
  jsonrpc_get_local_strikes_grid r x y grid_base_length minute_length minute_offset count_threshold
        data_area s =
      elim (local_grid_params j x y grid_base_length minute_length minute_offset count_threshold
        data_area) [ none ↦ (s, (r, ok (no_result j))) | some p ↦ serve_local_strikes_grid r p s ]
