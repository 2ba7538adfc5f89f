-- ===== src/ServiceLog/Metric.antt =====
-- `access_metric_key` (src/service_log.rs): the tags of an entry for StatsD.
use bo_srv_rs.Common.{◌&&◌, not, List, [], ◌∷◌, ◌++◌, Option, none, some, if◌then◌else◌}
use bo_srv_rs.Common.Int.{ℤ, pos, ◌==ℤ◌}
use bo_srv_rs.Common.Text.Decimal.{Text, codes, print_ℤ}
use bo_srv_rs.Common.Text.Trim.{is_empty}
use bo_srv_rs.ServiceLog.Entry.{ServiceLogEntry, LocalGridLog}

-- An optional number, `-` without one.
abbrev pub or_dash : Option ℤ → Text
or_dash none = codes "-"
or_dash (some n) = print_ℤ n

-- The tag of the area, where no value of it is 0.
unfoldable pub area_tags : Option LocalGridLog → List Text
area_tags none = []
area_tags (some local) =
    let tag =
      codes "data_area="
      ++ (print_ℤ local.x
          ++ (codes "x" ++ (print_ℤ local.y ++ (codes "-" ++ print_ℤ local.data_area)))) in
    if not (local.x ==ℤ pos 0) && (not (local.y ==ℤ pos 0) && not (local.data_area ==ℤ pos 0))
    then tag ∷ []
    else []

unfoldable pub country_tags : Option Text → List Text
country_tags none = []
country_tags (some country) = if is_empty country then [] else (codes "country=" ++ country) ∷ []

-- `join(",")`.
abbrev pub join_tags : List Text → Text
join_tags [] = []
join_tags (t ∷ []) = t
join_tags (t ∷ ts) = t ++ (b',' ∷ join_tags ts)

unfoldable pub access_metric_key : {F : Type 0} → ServiceLogEntry F → Option ℤ → Option Text → Text
unfolding area_tags country_tags
access_metric_key entry version country_code =
    let tags =
      (codes "version=" ++ or_dash version)
      ∷ (codes "type=" ++ entry.query_type ∷ [])
      ∷ (codes "region=" ++ print_ℤ entry.region)
      ∷ (codes "minutes=" ++ print_ℤ entry.minute_length)
      ∷ (codes "offset=" ++ print_ℤ entry.minute_offset)
      ∷ (codes "grid=" ++ or_dash entry.grid_baselength)
      ∷ [] in
    codes "access," ++ join_tags (tags ++ (area_tags entry.local ++ country_tags country_code))
