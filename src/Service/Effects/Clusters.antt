-- ===== src/Service/Effects/Clusters.antt =====
-- The branches of the two cluster handlers of src/service.rs.
use bo_srv_rs.Common.{[], ◌∷◌, none, some, ◌≡◌, refl, inl, inr, Option-cases}
use bo_srv_rs.Common.Result.{Result, ok}
use bo_srv_rs.Common.Text.Decimal.{Text}
use bo_srv_rs.Cache.{OnceCell, get_result_at}
use bo_srv_rs.Cache.Layout.{global_clusters, local_clusters}
use bo_srv_rs.Json.{Json}
use bo_srv_rs.Service.Access.{Reason, forbidden_client_reason}
use bo_srv_rs.Service.Client.{request_client, user_agent_client}
use bo_srv_rs.Service.Clusters.{
  serve_global_clusters, serve_local_clusters, jsonrpc_get_global_clusters,
  jsonrpc_get_local_clusters,
}
use bo_srv_rs.Service.Handling.{Surroundings, respond, block, no_result, strip_header}
use bo_srv_rs.Service.Params.{limit_global_clusters, limit_local_clusters}
use bo_srv_rs.Service.Server.{put_store, Service, ServiceError, store_at}
use bo_srv_rs.ServiceLog.Entry.{ServiceLogEntry, global_cluster_entry, local_cluster_entry}
use bo_srv_rs.Service.Keys.{
  GlobalClusterQuery, LocalClusterQuery, global_clusters_key, local_clusters_key,
}
use bo_srv_rs.ServiceLog.Queue.{Channel}
use bo_srv_rs.Transport.Headers.{Request}
use bo_srv_rs.Service.Effects.{Effects, no_integers, rejected, respond-Effects}
use bo_srv_rs.Service.Effects.Reading.{
  Reads, global_cluster_values, local_cluster_values, global_cluster_params-read,
  local_cluster_params-read,
}
use bo_srv_rs.Service.Effects.Tables.{global_clusters_rules, local_clusters_rules}

module _ (j : Json) {C F Q : Type 0} (channel : Channel Q (ServiceLogEntry F))
    (env : Surroundings j.Value F) (dec : Discrete Text)
    (once : OnceCell C (Result j.Value ServiceError)) where
  open j use {Value}

  serve_global_clusters-respond :
      (r : Request) (p : GlobalClusterQuery) (s : Service C Q)
      → forbidden_client_reason s.forbidden_ips r (request_client r) (user_agent_client r) ≡ none
      → let q = limit_global_clusters p in
        let (store, result) =
          get_result_at dec once
            (global_clusters s.cache q.minute_offset)
            (global_clusters_key q)
            (env.backend.global_clusters q)
            env.clock.cache_now
            (store_at q.minute_offset s.global_clusters) in
        serve_global_clusters j dec once channel env r p s
        ≡ respond channel strip_header
            (λ response.
              global_cluster_entry env.clock.log_now_us q.minute_offset q.interval_count
                (request_client r)
                r.user_agent)
            r
            (record s { global_clusters = put_store q.minute_offset store s.global_clusters })
            result
  unfolding serve_global_clusters
  serve_global_clusters-respond r p s e = rw (e, serve_global_clusters) refl

  serve_global_clusters-block :
      (r : Request) (p : GlobalClusterQuery) (s : Service C Q) (reason : Reason)
      → forbidden_client_reason s.forbidden_ips r (request_client r) (user_agent_client r)
        ≡ some reason
      → serve_global_clusters j dec once channel env r p s
        ≡ (s, (block env r reason, ok (no_result j)))
  unfolding serve_global_clusters
  serve_global_clusters-block r p s reason e = rw (e, serve_global_clusters) refl

  serve_global_clusters-Effects :
      (r : Request) (a b c : Value) (p : GlobalClusterQuery) (s : Service C Q)
      → Reads j (a ∷ b ∷ c ∷ []) (global_cluster_values j p)
      → Effects j channel env
          (global_clusters_rules j env dec once r a b c s)
          r
          s
          (serve_global_clusters j dec once channel env r p s)
  unfolding global_cluster_entry
  serve_global_clusters-Effects r a b c p s reads =
      elim (Option-cases
        (forbidden_client_reason s.forbidden_ips r (request_client r) (user_agent_client r))) [
          | inl e ↦ rw (serve_global_clusters-respond r p s e) (
              respond-Effects j channel env (global_clusters_rules j env dec once r a b c s) p _ r s
                _ _ reads e refl (refl, refl, refl) refl (λ v. (refl, refl)))
          | inr (reason, e) ↦
              rw (serve_global_clusters-block r p s reason e) (rejected p reason reads e)
        ]

  pub jsonrpc_get_global_clusters-Effects :
      (r : Request) (a b c : Value) (s : Service C Q)
      → Effects j channel env
          (global_clusters_rules j env dec once r a b c s)
          r
          s
          (jsonrpc_get_global_clusters j dec once channel env r a b c s)
  unfolding jsonrpc_get_global_clusters
  jsonrpc_get_global_clusters-Effects r a b c s = elim (global_cluster_params-read j a b c) [
    | inl (e, unread) ↦ rw (e, jsonrpc_get_global_clusters) (no_integers unread)
    | inr (p, e, reads) ↦
        rw (e, jsonrpc_get_global_clusters) (serve_global_clusters-Effects r a b c p s reads)
  ]

  serve_local_clusters-respond :
      (r : Request) (p : LocalClusterQuery) (s : Service C Q)
      → forbidden_client_reason s.forbidden_ips r (request_client r) (user_agent_client r) ≡ none
      → let q = limit_local_clusters p in
        let (store, result) =
          get_result_at dec once
            (local_clusters s.cache q.minute_offset)
            (local_clusters_key q)
            (env.backend.local_clusters q)
            env.clock.cache_now
            (store_at q.minute_offset s.local_clusters) in
        serve_local_clusters j dec once channel env r p s
        ≡ respond channel strip_header
            (λ response.
              local_cluster_entry env.clock.log_now_us q.minute_offset q.interval_count
                (request_client r)
                r.user_agent
                q.x
                q.y
                q.data_area)
            r
            (record s { local_clusters = put_store q.minute_offset store s.local_clusters })
            result
  unfolding serve_local_clusters
  serve_local_clusters-respond r p s e = rw (e, serve_local_clusters) refl

  serve_local_clusters-block :
      (r : Request) (p : LocalClusterQuery) (s : Service C Q) (reason : Reason)
      → forbidden_client_reason s.forbidden_ips r (request_client r) (user_agent_client r)
        ≡ some reason
      → serve_local_clusters j dec once channel env r p s
        ≡ (s, (block env r reason, ok (no_result j)))
  unfolding serve_local_clusters
  serve_local_clusters-block r p s reason e = rw (e, serve_local_clusters) refl

  serve_local_clusters-Effects :
      (r : Request) (a b c d f g : Value) (p : LocalClusterQuery) (s : Service C Q)
      → Reads j (a ∷ b ∷ c ∷ d ∷ f ∷ g ∷ []) (local_cluster_values j p)
      → Effects j channel env
          (local_clusters_rules j env dec once r a b c d f g s)
          r
          s
          (serve_local_clusters j dec once channel env r p s)
  unfolding local_cluster_entry
  serve_local_clusters-Effects r a b c d f g p s reads =
      elim (Option-cases
        (forbidden_client_reason s.forbidden_ips r (request_client r) (user_agent_client r))) [
          | inl e ↦ rw (serve_local_clusters-respond r p s e) (
              respond-Effects j channel env (local_clusters_rules j env dec once r a b c d f g s) p
                _ r s _ _ reads e refl (refl, refl, refl) refl (λ v. (refl, refl)))
          | inr (reason, e) ↦
              rw (serve_local_clusters-block r p s reason e) (rejected p reason reads e)
        ]

  pub jsonrpc_get_local_clusters-Effects :
      (r : Request) (a b c d f g : Value) (s : Service C Q)
      → Effects j channel env
          (local_clusters_rules j env dec once r a b c d f g s)
          r
          s
          (jsonrpc_get_local_clusters j dec once channel env r a b c d f g s)
  unfolding jsonrpc_get_local_clusters
  jsonrpc_get_local_clusters-Effects r a b c d f g s =
      elim (local_cluster_params-read j a b c d f g) [
        | inl (e, unread) ↦ rw (e, jsonrpc_get_local_clusters) (no_integers unread)
        | inr (p, e, reads) ↦
            rw (e, jsonrpc_get_local_clusters)
              (serve_local_clusters-Effects r a b c d f g p s reads)
      ]
