-- ===== src/Stats/Row.antt =====
-- The rows of a usage log: the types and functions of src/stats/parse.rs. A float is a value of
-- a type `F`, with its parser as a parameter; a `char` is its code point.
use bo_srv_rs.Common.{
  ℕ, ◌+◌, Bool, not, ◌||◌, List, [], ◌∷◌, ◌++◌, Option, none, some, ◌>>=◌, if◌then◌else◌, ◌==◌,
}
use bo_srv_rs.Common.Int.{ℤ, pos, negsuc, ◌==ℤ◌, ltb_ℤ}
use bo_srv_rs.Common.Text.Decimal.{Text, codes, parse_i64}
use bo_srv_rs.Common.Text.Fields.{fields, lines}
use bo_srv_rs.Common.Text.Order.{text_eq}
use bo_srv_rs.Common.Text.Trim.{is_empty, trim, trim_end_matches}

-- `QUERY_TYPE_GRID` and `QUERY_TYPE_CLUSTER` of src/service_log.rs.
abbrev pub query_type_grid : ℕ
query_type_grid = b'G'

abbrev pub query_type_cluster : ℕ
query_type_cluster = b'C'

pub record ServiceLogRow (F : Type 0) : Type 0 where
  pub timestamp : Text
  pub country : Option Text
  pub city : Option Text
  pub platform : Text
  pub version : Option ℤ
  pub query_type : ℕ
  pub minute_offset : ℤ
  pub minute_length : ℤ
  pub grid_baselength : Option ℤ
  pub region : ℤ
  pub count_threshold : Option ℤ
  pub x : Option ℤ
  pub y : Option ℤ
  pub data_area : Option ℤ
  pub fill : Option F

module _ {F : Type 0} where
  abbrev pub is_local : ServiceLogRow F → Bool
  is_local r = r.region ==ℤ negsuc 0

  abbrev pub is_global : ServiceLogRow F → Bool
  is_global r = r.region ==ℤ pos 0

  abbrev pub is_region : ServiceLogRow F → Bool
  is_region r = ltb_ℤ (pos 0) r.region

  abbrev pub is_grid : ServiceLogRow F → Bool
  is_grid r = r.query_type == query_type_grid

  abbrev pub is_cluster : ServiceLogRow F → Bool
  is_cluster r = r.query_type == query_type_cluster

unfoldable pub dash_to_none : Text → Option Text
dash_to_none value = if text_eq value (codes "-") then none else some value

unfoldable pub dash_to_int : Text → Option ℤ
dash_to_int value = if text_eq value (codes "-") then none else parse_i64 value

unfoldable pub parse_query_type : Text → Option ℕ
parse_query_type (c ∷ []) = some c
parse_query_type _ = none

unfoldable pub parse_version : Text → Option ℤ
parse_version value =
    if text_eq value (codes "-") || text_eq value (codes "None") then none else parse_i64 value

abbrev pub is_line_end : ℕ → Bool
is_line_end c = c == b'\r' || c == b'\n'

pub record ParseOutcome (F : Type 0) : Type 0 where
  pub rows : List (ServiceLogRow F)
  pub malformed : ℕ

module _ {F : Type 0} (parse_f64 : Text → Option F) where
  unfoldable pub dash_to_f64 : Text → Option F
  dash_to_f64 value = if text_eq value (codes "-") then none else parse_f64 value

  -- The literal of `parse_row`, on exactly `SERVICELOG_FIELDS` fields.
  unfoldable pub row_of_fields : List Text → Option (ServiceLogRow F)
  unfolding dash_to_f64
  row_of_fields
        (f0 ∷ f1 ∷ f2 ∷ f3 ∷ f4 ∷ f5 ∷ f6 ∷ f7 ∷ f8 ∷ f9 ∷ f10 ∷ f11 ∷ f12 ∷ f13 ∷ f14 ∷ []) =
      do
        query_type ← parse_query_type f5
        minute_offset ← parse_i64 f6
        minute_length ← parse_i64 f7
        region ← parse_i64 f9
        some (record {
          timestamp = f0;
          country = dash_to_none f1;
          city = dash_to_none f2;
          platform = f3;
          version = parse_version f4;
          query_type = query_type;
          minute_offset = minute_offset;
          minute_length = minute_length;
          grid_baselength = dash_to_int f8;
          region = region;
          count_threshold = dash_to_int f10;
          x = dash_to_int f11;
          y = dash_to_int f12;
          data_area = dash_to_int f13;
          fill = dash_to_f64 f14;
        })
  row_of_fields _ = none

  unfoldable pub parse_row : Text → Option (ServiceLogRow F)
  parse_row text =
      let line = trim_end_matches is_line_end text in
      if is_empty (trim line) then none else row_of_fields (fields b'\t' line)

  -- One round of the loop of `parse_content`.
  unfoldable pub parse_line : ParseOutcome F → Text → ParseOutcome F
  parse_line out line = elim (parse_row line) [
    | some row ↦ record out { rows = out.rows ++ row ∷ [] }
    | none ↦
        if not (is_empty (trim line)) then record out { malformed = out.malformed + 1 } else out
  ]

  unfoldable pub parse_lines : ParseOutcome F → List Text → ParseOutcome F
  parse_lines out [] = out
  parse_lines out (line ∷ rest) = parse_lines (parse_line out line) rest

  unfoldable pub parse_content : Text → ParseOutcome F
  unfolding parse_lines
  parse_content content = parse_lines (record { rows = []; malformed = 0 }) (lines content)
