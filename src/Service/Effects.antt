-- ===== src/Service/Effects.antt =====
-- What a handler of src/service.rs answers and changes, on every branch, and when it takes which.
pub mod Reading
pub mod Tables
mod Grids
mod Clusters
pub mod Handlers
use mathlib.Core.Option
use bo_srv_rs.Common.{
  List, Option, none, some, ◌≡◌, ◌∙◌, arith, refl, ap, inl, inr, ◌⊎◌, Option-cases, true, false,
  if◌then◌else◌,
}
use bo_srv_rs.Common.Int.{ℤ, pos}
use bo_srv_rs.Common.Result.{Result, ok, err, Result-cases}
use bo_srv_rs.Common.Text.Decimal.{Text}
use bo_srv_rs.Cache.{OnceCell, Store, get_result_at}
use bo_srv_rs.Cache.Layout.{strikes, global_strikes, local_strikes, global_clusters, local_clusters}
use bo_srv_rs.Json.{Json}
use bo_srv_rs.Service.Access.{
  Reason, forbidden_reason, forbidden_client_reason, min_grid_base_length,
  global_min_grid_base_length,
}
use bo_srv_rs.Service.Client.{request_client, user_agent_client}
use bo_srv_rs.Service.Grids.{
  serve_strikes_grid, serve_global_strikes_grid, serve_local_strikes_grid, jsonrpc_get_strikes_grid,
  jsonrpc_get_global_strikes_grid, jsonrpc_get_local_strikes_grid,
}
use bo_srv_rs.Service.Clusters.{
  serve_global_clusters, serve_local_clusters, jsonrpc_get_global_clusters,
  jsonrpc_get_local_clusters,
}
use bo_srv_rs.Service.Handling.{
  Surroundings, Answer, block, respond, no_result, strip_header, record_usage, fill,
}
use bo_srv_rs.Service.Params.{
  limit_grid, limit_global_grid, limit_local_grid, limit_global_clusters, limit_local_clusters,
  grid_params, global_grid_params, local_grid_params, global_cluster_params, local_cluster_params,
}
use bo_srv_rs.Service.Server.{Service, ServiceError, Backend, Clock}
use bo_srv_rs.Service.Effects.Reading.{Unread, Reads}
use bo_srv_rs.ServiceLog.Entry.{
  ServiceLogEntry, region_entry, global_entry, local_entry, global_cluster_entry,
  local_cluster_entry,
}
use bo_srv_rs.Service.Keys.{
  GridQuery, GlobalGridQuery, LocalGridQuery, GlobalClusterQuery, LocalClusterQuery,
}
use bo_srv_rs.ServiceLog.Queue.{Channel, record_entry, UsageLogSender}
use bo_srv_rs.Transport.Headers.{Request}

-- What a handler does with a request, in a state of the service: the values of the request and
-- the integers that make its parameters, the reason to reject it, the result of the cached
-- computation, and what becomes of the request.
pub record Rules (V P : Type 0) : Type 0 where
  pub values : List V
  pub fields : P → List ℤ
  pub forbidden : P → Option Reason
  pub computed : P → Result V ServiceError
  pub change : Request → Request

module _ (j : Json) {C F Q : Type 0} (channel : Channel Q (ServiceLogEntry F))
    (env : Surroundings j.Value F) where
  open j use {Value}

  -- The rest of the service is as it was.
  abbrev pub SameRest : Service C Q → Service C Q → Type 0
  SameRest s s' =
      (s'.forbidden_ips ≡ s.forbidden_ips) × (s'.cache ≡ s.cache) × (s'.check_count ≡ s.check_count)

  -- Values that are no integers; a rejected request; a computation that failed, with no usage
  -- recorded; and a response, with one entry recorded.
  pub data Effects {P : Type 0} (rules : Rules Value P) (r : Request) (s : Service C Q)
      : Answer Value C Q → Type 0 where
    no_integers : Unread j rules.values → Effects rules r s (s, (r, ok (no_result j)))
    rejected :
        (p : P) (reason : Reason)
        → Reads j rules.values (rules.fields p)
        → rules.forbidden p ≡ some reason
        → Effects rules r s (s, (block env r reason, ok (no_result j)))
    failed :
        (p : P) (s' : Service C Q) (e : ServiceError)
        → Reads j rules.values (rules.fields p)
        → rules.forbidden p ≡ none
        → rules.computed p ≡ err e
        → SameRest s s'
        → s'.service_log ≡ s.service_log
        → Effects rules r s (s', (r, err e))
    served :
        (p : P) (s' : Service C Q) (response : Value) (entry : ServiceLogEntry F)
        → Reads j rules.values (rules.fields p)
        → rules.forbidden p ≡ none
        → rules.computed p ≡ ok response
        → SameRest s s'
        → s'.service_log ≡ Option.map (record_entry channel entry) s.service_log
        → (entry.client ≡ request_client r) × (entry.user_agent ≡ r.user_agent)
        → Effects rules r s (s', (rules.change r, ok response))

  service_log-record_usage :
      (entry : ServiceLogEntry F) (s : Service C Q)
      → (record_usage channel entry s).service_log
        ≡ Option.map (record_entry channel entry) s.service_log
  unfolding record_usage
  service_log-record_usage entry s = elim (Option-cases s.service_log) [
    | inl e ↦ ground (arith, e)
    | inr (log, e) ↦ ground (arith, e)
  ]

  record_usage-SameRest :
      (entry : ServiceLogEntry F) (s : Service C Q) → SameRest s (record_usage channel entry s)
  unfolding record_usage
  record_usage-SameRest entry s = elim (Option-cases s.service_log) [
    | inl e ↦ ground (arith, e)
    | inr (log, e) ↦ ground (arith, e)
  ]

  pub respond-Effects :
      {P : Type 0} (rules : Rules Value P) (p : P) (entry : Value → ServiceLogEntry F) (r : Request)
      (s s1 : Service C Q) (result : Result Value ServiceError)
      → Reads j rules.values (rules.fields p)
      → rules.forbidden p ≡ none
      → rules.computed p ≡ result
      → SameRest s s1
      → s1.service_log ≡ s.service_log
      → ((v : Value)
          → ((entry v).client ≡ request_client r) × ((entry v).user_agent ≡ r.user_agent))
      → Effects rules r s (respond channel rules.change entry r s1 result)
  respond-Effects rules p entry r s s1 (err e) reads free is rest log who =
      failed p s1 e reads free is rest log
  respond-Effects rules p entry r s s1 (ok v) reads free is rest log who =
      let kept = record_usage-SameRest (entry v) s1 in
      served p (record_usage channel (entry v) s1) v (entry v) reads free is
        (kept.0 ∙ rest.0, kept.1 ∙ rest.1, kept.2 ∙ rest.2)
        (service_log-record_usage (entry v) s1
          ∙ ap (Option.map (record_entry channel (entry v))) log)
        (who v)
