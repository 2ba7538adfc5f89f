-- ===== src/Service/Effects/Tables.antt =====
-- What decides how each of the five handlers of src/service.rs answers.
use bo_srv_rs.Common.{[], ◌∷◌}
use bo_srv_rs.Common.Result.{Result}
use bo_srv_rs.Common.Text.Decimal.{Text}
use bo_srv_rs.Cache.{OnceCell, get_result_at}
use bo_srv_rs.Cache.Layout.{strikes, global_strikes, local_strikes, global_clusters, local_clusters}
use bo_srv_rs.Json.{Json}
use bo_srv_rs.Service.Access.{
  forbidden_reason, forbidden_client_reason, min_grid_base_length, global_min_grid_base_length,
}
use bo_srv_rs.Service.Client.{request_client, user_agent_client}
use bo_srv_rs.Service.Handling.{Surroundings, strip_header, keep_header}
use bo_srv_rs.Service.Params.{
  limit_grid, limit_global_grid, limit_local_grid, limit_global_clusters, limit_local_clusters,
}
use bo_srv_rs.Service.Server.{Service, ServiceError, store_at}
use bo_srv_rs.Service.Keys.{
  GridQuery, GlobalGridQuery, LocalGridQuery, GlobalClusterQuery, LocalClusterQuery,
  strikes_grid_key, global_grid_key, local_grid_key, global_clusters_key, local_clusters_key,
}
use bo_srv_rs.Transport.Headers.{Request}
use bo_srv_rs.Service.Effects.{Rules}
use bo_srv_rs.Service.Effects.Reading.{
  grid_values, global_grid_values, local_grid_values, global_cluster_values, local_cluster_values,
}

module _ (j : Json) {C F Q : Type 0} (env : Surroundings j.Value F) (dec : Discrete Text)
    (once : OnceCell C (Result j.Value ServiceError)) where
  open j use {Value}

  abbrev pub strikes_grid_rules :
      Request → (a b c d f : Value) → Service C Q → Rules Value GridQuery
  strikes_grid_rules r a b c d f s = record {
    values = a ∷ b ∷ c ∷ d ∷ f ∷ [];
    fields = grid_values j;
    forbidden = λ p.
        forbidden_reason s.forbidden_ips r (request_client r) (user_agent_client r)
          p.grid_base_length min_grid_base_length;
    computed = λ p.
        (let q = limit_grid p in
          (get_result_at dec once (strikes s.cache q.minute_offset) (strikes_grid_key q)
            (env.backend.strikes_grid q) env.clock.cache_now
            (store_at q.minute_offset s.strikes)).1);
    change = strip_header;
  }

  abbrev pub global_strikes_grid_rules :
      Request → (a b c d : Value) → Service C Q → Rules Value GlobalGridQuery
  global_strikes_grid_rules r a b c d s = record {
    values = a ∷ b ∷ c ∷ d ∷ [];
    fields = global_grid_values j;
    forbidden = λ p.
        forbidden_reason s.forbidden_ips r (request_client r) (user_agent_client r)
          p.grid_base_length global_min_grid_base_length;
    computed = λ p.
        (let q = limit_global_grid p in
          (get_result_at dec once (global_strikes s.cache q.minute_offset) (global_grid_key q)
            (env.backend.global_strikes_grid q) env.clock.cache_now
            (store_at q.minute_offset s.global_strikes)).1);
    change = strip_header;
  }

  abbrev pub local_strikes_grid_rules :
      Request → (a b c d f g h : Value) → Service C Q → Rules Value LocalGridQuery
  local_strikes_grid_rules r a b c d f g h s = record {
    values = a ∷ b ∷ c ∷ d ∷ f ∷ g ∷ h ∷ [];
    fields = local_grid_values j;
    forbidden = λ p.
        forbidden_reason s.forbidden_ips r (request_client r) (user_agent_client r)
          p.grid_base_length min_grid_base_length;
    computed = λ p.
        (let q = limit_local_grid p in
          (get_result_at dec once (local_strikes s.cache q.minute_offset) (local_grid_key q)
            (env.backend.local_strikes_grid q) env.clock.cache_now
            (store_at q.minute_offset s.local_strikes)).1);
    change = keep_header;
  }

  abbrev pub global_clusters_rules :
      Request → (a b c : Value) → Service C Q → Rules Value GlobalClusterQuery
  global_clusters_rules r a b c s = record {
    values = a ∷ b ∷ c ∷ [];
    fields = global_cluster_values j;
    forbidden =
        λ p. forbidden_client_reason s.forbidden_ips r (request_client r) (user_agent_client r);
    computed = λ p.
        (let q = limit_global_clusters p in
          (get_result_at dec once (global_clusters s.cache q.minute_offset) (global_clusters_key q)
            (env.backend.global_clusters q) env.clock.cache_now
            (store_at q.minute_offset s.global_clusters)).1);
    change = strip_header;
  }

  abbrev pub local_clusters_rules :
      Request → (a b c d f g : Value) → Service C Q → Rules Value LocalClusterQuery
  local_clusters_rules r a b c d f g s = record {
    values = a ∷ b ∷ c ∷ d ∷ f ∷ g ∷ [];
    fields = local_cluster_values j;
    forbidden =
        λ p. forbidden_client_reason s.forbidden_ips r (request_client r) (user_agent_client r);
    computed = λ p.
        (let q = limit_local_clusters p in
          (get_result_at dec once (local_clusters s.cache q.minute_offset) (local_clusters_key q)
            (env.backend.local_clusters q) env.clock.cache_now
            (store_at q.minute_offset s.local_clusters)).1);
    change = strip_header;
  }
