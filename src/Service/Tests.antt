-- ===== src/Service/Tests.antt =====
-- The decisions of src/service.rs at concrete requests.
use bo_srv_rs.Common.{
  true, false, List, [], ◌∷◌, Option, none, some, ◌≡◌, ◌↔◌, refl, arith, length, All,
}
use bo_srv_rs.Common.Int.{ℤ, pos, negsuc, ◌+ℤ◌, ◌≤ℤ◌}
use bo_srv_rs.Common.Result.{ok}
use bo_srv_rs.Common.Text.Decimal.{Text, codes, parse_i64}
use bo_srv_rs.Common.Text.Order.{text_eq}
use bo_srv_rs.Common.Text.Split.{first_piece, rsplit_once}
use bo_srv_rs.Transport.Headers.{Request}
use bo_srv_rs.Service.Client.{ios, client_in}
use bo_srv_rs.Service.Access.{
  IsAllowed, forbidden_reason, forbidden_reason-none, contains_ℤ, valid_grid_base_lengths,
}
use bo_srv_rs.Service.Limits.{enforce, minute_constraints, max_minutes_per_day, enforce_limits}
use bo_srv_rs.Service.Histogram.{build_histogram, value_count, build_histogram-ok, IsCounted}

abbrev agent : Text
agent = codes "bo-ios-12 (tablet)"

abbrev request : Request
request = record {
  user_agent = some agent;
  client_ip = some (codes "10.0.0.9");
  x_forwarded_for = none;
  content_type = some (codes "text/json");
  referer = some [];
  accept_encoding = none;
  accept_encoding_removed = false;
  blocked_reason = none;
}

client_of_agent : client_in (some agent) ≡ some (ios (pos 12))
unfolding client_in rsplit_once first_piece parse_i64 text_eq
client_of_agent = refl

forbidden_reason-none_example :
    (forbidden_reason [] request
        (some (codes "10.0.0.9"))
        (some (ios (pos 12)))
        (pos 10000)
        (pos 5000)
      ≡ none)
    ↔ (IsAllowed [] request (some (codes "10.0.0.9")) (some (ios (pos 12)))
        × (pos 5000 ≤ℤ pos 10000)
        × (contains_ℤ valid_grid_base_lengths (pos 10000) ≡ true))
forbidden_reason-none_example =
    forbidden_reason-none [] request (some (codes "10.0.0.9")) (some (ios (pos 12))) (pos 10000)
      (pos 5000)

enforce_limits_example :
    let (length, offset) = enforce minute_constraints (pos 0) (negsuc 5000) in
    (pos 1 ≤ℤ length)
    × (length ≤ℤ max_minutes_per_day)
    × (offset ≤ℤ pos 0)
    × (length ≤ℤ offset +ℤ max_minutes_per_day)
    × (enforce minute_constraints length offset ≡ (length, offset))
enforce_limits_example = enforce_limits (pos 0) (negsuc 5000)

abbrev counted : List (Option ℤ × Option ℤ)
counted = (some (pos 0), some (pos 4)) ∷ (some (negsuc 22), some (pos 1)) ∷ []

build_histogram-ok_example :
    ((bins : List ℤ) × ((build_histogram counted (pos 60) (pos 5) ≡ ok bins) × (length bins ≡ 12)))
    ↔ All IsCounted counted
unfolding value_count
build_histogram-ok_example =
    build_histogram-ok counted (pos 60) (pos 5) 12 refl (omega arith)
      ((omega arith, omega arith), ((omega arith, omega arith), tt))
