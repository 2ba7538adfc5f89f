-- ===== src/ServiceLog/Tests.antt =====
-- The usage log (src/service_log.rs) at concrete entries.
use bo_srv_rs.Common.{ℕ, [], Bool, true, false, Option, none, some, ◌≡◌, refl, arith, if◌then◌else◌}
use bo_srv_rs.Common.Int.{ℤ, pos, negsuc, div_euclid, rem_euclid}
use bo_srv_rs.Common.Text.Decimal.{Text, codes, print_ℤ, parse_i64}
use bo_srv_rs.Common.Text.Fields.{IsField, has, has-Without}
use bo_srv_rs.Common.Text.Order.{text_eq}
use bo_srv_rs.Common.Text.Split.{starts_with, first_piece, rsplit_once}
use bo_srv_rs.Common.Text.Trim.{trim_end_matches, is_whitespace}
use bo_srv_rs.ServiceLog.Entry.{ServiceLogEntry, client_platform, local_entry, user_agent_version}
use bo_srv_rs.ServiceLog.Metric.{access_metric_key}
use bo_srv_rs.ServiceLog.Row.{build_row, format_timestamp, pad_city}
use bo_srv_rs.ServiceLog.RoundTrip.Columns.{RendersTime, RendersFixed, Fits}
use bo_srv_rs.ServiceLog.RoundTrip.Whole.{logged, parse_row-build_row}
use bo_srv_rs.Stats.Row.{parse_row, is_line_end}

abbrev noon : ℤ → Text
noon _ = codes "12:00:00"

noon-RendersTime : RendersTime noon
unfolding has is_whitespace
noon-RendersTime = record {
  field = λ _. record { filled = refl; without = has-Without b'\t' (codes "12:00:00") refl };
  visible = λ _. refl;
}

-- Two floats, one and a half, by their texts.
abbrev format_fixed : Bool → ℕ → Text
format_fixed true _ = codes "1.000"
format_fixed false _ = codes "0.500"

abbrev parse_f64 : Text → Option Bool
parse_f64 t =
    if text_eq t (codes "1.000")
    then some true
    else if text_eq t (codes "0.500")
    then some false
    else none

format_fixed-IsField : (f : Bool) → IsField b'\t' (format_fixed f 3)
unfolding has
format_fixed-IsField true = record {
  filled = refl;
  without = has-Without b'\t' (codes "1.000") refl;
}
format_fixed-IsField false = record {
  filled = refl;
  without = has-Without b'\t' (codes "0.500") refl;
}

format_fixed_ends : (f : Bool) → trim_end_matches is_line_end (format_fixed f 3) ≡ format_fixed f 3
unfolding trim_end_matches
format_fixed_ends true = refl
format_fixed_ends false = refl

format_fixed_not_dash : (f : Bool) → text_eq (format_fixed f 3) (codes "-") ≡ false
unfolding text_eq
format_fixed_not_dash true = refl
format_fixed_not_dash false = refl

format_fixed-RendersFixed : RendersFixed format_fixed
format_fixed-RendersFixed = record {
  field = format_fixed-IsField;
  ends = format_fixed_ends;
  not_dash = format_fixed_not_dash;
}

abbrev agent : Text
agent = codes "bo-android-173 (phone)"

abbrev entry : ServiceLogEntry Bool
entry = record {
  now_us = pos 1000000000123456;
  minute_length = pos 10;
  grid_baselength = some (pos 5000);
  minute_offset = negsuc 59;
  region = negsuc 0;
  count_threshold = some (pos 0);
  fill = some false;
  query_type = b'G';
  client = none;
  user_agent = some agent;
  local = some (record { x = pos 3; y = negsuc 8; data_area = pos 5 });
}

entry_of_local_entry :
    local_entry
      (pos 1000000000123456)
      (pos 10)
      (pos 5000)
      (negsuc 59)
      (pos 0)
      false
      none
      (some agent)
      (pos 3)
      (negsuc 8)
      (pos 5)
    ≡ entry
unfolding local_entry
entry_of_local_entry = refl

version_of_agent : user_agent_version (some agent) ≡ some (pos 173)
unfolding user_agent_version rsplit_once first_piece text_eq parse_i64
version_of_agent = refl

entry-Fits : Fits entry (some (pos 173)) (some (codes "DE")) none
unfolding has text_eq
entry-Fits = record {
  version_fits = omega arith;
  country_fits = (record { filled = refl; without = has-Without b'\t' (codes "DE") refl }, refl);
  city_fits = tt;
  query_type_fits = refl;
  offset_fits = omega arith;
  length_fits = omega arith;
  grid_fits = omega arith;
  region_fits = omega arith;
  threshold_fits = omega arith;
  local_fits = (omega arith, omega arith, omega arith);
}

row_of_entry :
    build_row noon format_fixed entry (some (pos 173)) (some (codes "DE")) none
    ≡ codes "12:00:00.123\tDE\t-\t\t\t\tA\t173\tG\t-60\t10\t5000\t-1\t0\t3\t-9\t5\t0.500"
unfolding build_row format_timestamp rem_euclid pad_city div_euclid client_platform starts_with
    first_piece print_ℤ
row_of_entry = refl

parse_row-build_row_example :
    parse_row parse_f64
      (build_row noon format_fixed entry (some (pos 173)) (some (codes "DE")) none)
    ≡ some (
        logged noon format_fixed parse_f64 noon-RendersTime format_fixed-RendersFixed entry
          (some (pos 173))
          (some (codes "DE"))
          none)
parse_row-build_row_example =
    parse_row-build_row noon format_fixed parse_f64 noon-RendersTime format_fixed-RendersFixed entry
      (some (pos 173)) (some (codes "DE")) none entry-Fits

-- A local query at 0 has no tag for its area, and an empty country none.
metric_at_zero :
    access_metric_key
      (local_entry {F = ℕ}
        (pos 0)
        (pos 60)
        (pos 10000)
        (negsuc 9)
        (pos 0)
        12
        none
        none
        (pos 0)
        (pos 4)
        (pos 5))
      (some (pos 177))
      (some [])
    ≡ codes "access,version=177,type=G,region=-1,minutes=60,offset=-10,grid=10000"
unfolding access_metric_key local_entry print_ℤ
metric_at_zero = refl
