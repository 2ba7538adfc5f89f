-- ===== src/Service/Handling.antt =====
-- What the handlers of `Service` (src/service.rs) share: the surroundings of a request, the
-- record of its usage, a rejection and the response.
use bo_srv_rs.Common.{[], Option, none, some}
use bo_srv_rs.Common.Result.{Result, ok, err}
use bo_srv_rs.Common.Text.Decimal.{Text}
use bo_srv_rs.Json.{Json}
use bo_srv_rs.Rpc.Invoke.{Handled}
use bo_srv_rs.Service.Access.{Reason}
use bo_srv_rs.Service.Client.{fix_bad_accept_header}
use bo_srv_rs.Service.Server.{Service, ServiceError, Backend, Clock}
use bo_srv_rs.ServiceLog.Entry.{ServiceLogEntry}
use bo_srv_rs.ServiceLog.Queue.{Channel, record_entry}
use bo_srv_rs.Transport.Headers.{Request}

-- What a request finds around the service: the answers of the database, the times, the share of
-- cells that a response fills (`grid_fill_percent`) with the float 0, and the texts of messages.
pub record Surroundings (J F : Type 0) : Type 0 where
  pub backend : Backend J
  pub clock : Clock
  pub fill_percent : J → Option F
  pub no_fill : F
  pub reason_text : Reason → Text
  pub error_text : ServiceError → Text

-- What a handler leaves behind.
abbrev pub Answer : (J C Q : Type 0) → Type 0
Answer J C Q = Handled J (Service C Q) ServiceError

-- `json!({})`.
abbrev pub no_result : (j : Json) → j.Value
no_result j = j.object_value []

abbrev pub keep_header : Request → Request
keep_header r = r

abbrev pub strip_header : Request → Request
strip_header r = (fix_bad_accept_header r).0

module _ {J F : Type 0} (env : Surroundings J F) where
  -- `grid_fill_percent(&response).unwrap_or(0.0)`.
  abbrev pub fill : J → F
  fill response = elim (env.fill_percent response) [ some f ↦ f | none ↦ env.no_fill ]

  -- The reason of a rejected request is kept for the access log.
  abbrev pub block : Request → Reason → Request
  block r reason = record r { blocked_reason = some (env.reason_text reason) }

module _ {F C Q : Type 0} (channel : Channel Q (ServiceLogEntry F)) where
  -- `Service::record_usage`.
  unfoldable pub record_usage : ServiceLogEntry F → Service C Q → Service C Q
  record_usage entry s = elim s.service_log [
    | none ↦ s
    | some log ↦ record s { service_log = some (record_entry channel entry log) }
  ]

  -- The end of a handler, once the cache has answered: the usage is recorded for a response only.
  abbrev pub respond :
      {J : Type 0}
      → (Request → Request)
      → (J → ServiceLogEntry F)
      → Request
      → Service C Q
      → Result J ServiceError
      → Answer J C Q
  respond change entry r s (ok response) =
      (record_usage (entry response) s, (change r, ok response))
  respond change entry r s (err e) = (s, (r, err e))
