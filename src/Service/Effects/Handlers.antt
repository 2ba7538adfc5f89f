-- ===== src/Service/Effects/Handlers.antt =====
-- The branches of the five handlers of src/service.rs.
use bo_srv_rs.Common.Result.{Result}
use bo_srv_rs.Common.Text.Decimal.{Text}
use bo_srv_rs.Json.{Json}
use bo_srv_rs.Service.Server.{Service}
use bo_srv_rs.Service.Effects.{Effects}
