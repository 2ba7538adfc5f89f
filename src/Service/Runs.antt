-- ===== src/Service/Runs.antt =====
-- Runs of the handlers of src/service.rs on sample values.
use bo_srv_rs.Common.{none, ◌≡◌, ◌↔◌, refl, arith}
use bo_srv_rs.Common.Int.{pos, ◌-ℤ◌}
use bo_srv_rs.Common.Result.{ok}
use bo_srv_rs.Common.Text.Decimal.{codes, parse_i64}
use bo_srv_rs.Common.Text.Split.{rsplit_once, first_piece}
use bo_srv_rs.Common.Text.Order.{text_eq}
use mathlib.Core.List.{lookup}
use bo_srv_rs.Cache.{
  claim, get_result_at, fast_path, valid_entry, count_call, cleanup, settle, drive, claim_miss,
}
use bo_srv_rs.Cache.Invariant.{IsValid, empty-IsValid}
use bo_srv_rs.Cache.Layout.{new_service_cache, strikes}
use bo_srv_rs.Json.Sample.{words, sample_json}
use bo_srv_rs.Service.Access.{forbidden_reason}
use bo_srv_rs.Service.Client.{request_client, user_agent_client}
use bo_srv_rs.Service.Effects.{Effects}
use bo_srv_rs.Service.Grids.{serve_strikes_grid}
use bo_srv_rs.Service.Keys.{
  strikes_grid_key, global_grid_key, local_grid_key, global_clusters_key, local_clusters_key,
}
use bo_srv_rs.Service.Keys.Distinct.{keys_distinct}
use bo_srv_rs.Service.Params.{limit_grid}
use bo_srv_rs.Service.Repeats.{serve_strikes_grid-serve_strikes_grid}
use bo_srv_rs.Service.Server.{store_at}
use bo_srv_rs.Service.Sample.{
  text_discrete, once, two_places, monday, later, fresh, request, query, beyond, world, near,
  storms, here_storms,
}

fresh-IsValid :
    IsValid
      (strikes fresh.cache (limit_grid query).minute_offset)
      (store_at (limit_grid query).minute_offset fresh.strikes)
unfolding fresh limit_grid strikes ◌-ℤ◌
fresh-IsValid = empty-IsValid (strikes new_service_cache (pos 0)) none

serve_strikes_grid-serve_strikes_grid_example :
    (serve_strikes_grid sample_json text_discrete once two_places later request beyond
      (serve_strikes_grid sample_json text_discrete once two_places monday request query
        fresh).0).1.1
    ≡ ok (words (codes "first"))
unfolding fresh text_discrete strikes limit_grid forbidden_reason request_client user_agent_client
    serve_strikes_grid claim get_result_at ◌-ℤ◌ rsplit_once first_piece parse_i64 text_eq fast_path
    valid_entry lookup count_call cleanup settle drive claim_miss
serve_strikes_grid-serve_strikes_grid_example =
    serve_strikes_grid-serve_strikes_grid sample_json two_places text_discrete once monday later
      request request query beyond fresh (words (codes "first")) fresh-IsValid refl refl refl refl
      (omega arith)

keys_distinct_example :
    ((strikes_grid_key query ≡ strikes_grid_key beyond) ↔ (query ≡ beyond))
    × ((global_grid_key world ≡ global_grid_key world) ↔ (world ≡ world))
    × ((local_grid_key near ≡ local_grid_key near) ↔ (near ≡ near))
    × ((global_clusters_key storms ≡ global_clusters_key storms) ↔ (storms ≡ storms))
    × ((local_clusters_key here_storms ≡ local_clusters_key here_storms)
        ↔ (here_storms ≡ here_storms))
keys_distinct_example =
    keys_distinct query beyond world world near near storms storms here_storms here_storms
