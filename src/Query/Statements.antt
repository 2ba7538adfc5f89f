-- ===== src/Query/Statements.antt =====
-- The queries of strikes that do not need a geometry (src/query.rs): `strikes_query`,
-- `global_grid_query` and `histogram_query`, with the parameters of src/executor.rs. An `f64` is of
-- any type; the polygon of an envelope in well-known binary is a parameter.
use bo_srv_rs.Common.{ℕ, Bool, true, false, List, [], ◌∷◌, ◌++◌, Option, none, some, if◌then◌else◌}
use bo_srv_rs.Common.Int.{ℤ, pos, ltb_ℤ}
use bo_srv_rs.Common.Text.Decimal.{Text, codes}
use bo_srv_rs.Query.Builder.{
  Query, new_query, set_columns, condition, param, cast, group_by, group_having, order_by,
}

pub data Param (F : Type 0) : Type 0 where
  null : Param F
  int : ℤ → Param F
  float : F → Param F
  text : Text → Param F
  boolean : Bool → Param F
  bytea : List ℕ → Param F
  timestamp : ℤ → Param F

-- The ends of an interval, in nanoseconds since the epoch.
pub record TimeInterval : Type 0 where
  pub start : ℤ
  pub end : ℤ

pub data SelectColumns : Type 0 where
  strike : SelectColumns
  strike_key : SelectColumns

unfoldable pub coordinate_column : Text → Text → Bool → Text
coordinate_column function alias default_srid =
    if default_srid
    then function ++ (codes "(geog::geometry) AS " ++ alias)
    else function ++ (codes "(ST_Transform(geog::geometry, %(srid)s)) AS " ++ alias)

unfoldable pub sql_columns : SelectColumns → Bool → List Text
unfolding coordinate_column
sql_columns strike default_srid =
    codes "id"
    ∷ codes "\"timestamp\""
    ∷ codes "nanoseconds"
    ∷ coordinate_column (codes "ST_X") (codes "x") default_srid
    ∷ coordinate_column (codes "ST_Y") (codes "y") default_srid
    ∷ codes "altitude"
    ∷ codes "amplitude"
    ∷ codes "error2d"
    ∷ codes "stationcount"
    ∷ []
sql_columns strike_key default_srid =
    codes "\"timestamp\""
    ∷ codes "nanoseconds"
    ∷ coordinate_column (codes "ST_X") (codes "x") default_srid
    ∷ coordinate_column (codes "ST_Y") (codes "y") default_srid
    ∷ codes "error2d"
    ∷ []

module _ {F : Type 0} where
  -- A condition with the one parameter that it names, and the type of that.
  abbrev pub where_param : Text → Text → Param F → Text → Query (Param F) → Query (Param F)
  where_param c name v sql_type q = cast name sql_type (param name v (condition c q))

  unfoldable pub add_time_interval : TimeInterval → Query (Param F) → Query (Param F)
  unfolding condition param cast
  add_time_interval interval q =
      where_param (codes "\"timestamp\" < %(end_time)s") (codes "end_time") (timestamp interval.end)
        (codes "timestamptz")
        (where_param (codes "\"timestamp\" >= %(start_time)s") (codes "start_time")
          (timestamp interval.start) (codes "timestamptz") q)

  unfoldable pub from_id : Option ℤ → Query (Param F) → Query (Param F)
  unfolding condition param cast
  from_id none q = q
  from_id (some start) q =
      where_param (codes "id >= %(start_id)s") (codes "start_id") (int start) (codes "bigint") q

  unfoldable pub strikes_query : TimeInterval → Option ℤ → Query (Param F)
  unfolding new_query set_columns sql_columns add_time_interval from_id order_by
  strikes_query interval id_interval =
      let q = set_columns (sql_columns strike true) (new_query (codes "strikes")) in
      order_by (codes "id") false (from_id id_interval (add_time_interval interval q))

  unfoldable pub more_than : ℤ → Query (Param F) → Query (Param F)
  unfolding group_having cast
  more_than count_threshold q =
      if ltb_ℤ (pos 0) count_threshold
      then cast (codes "count_threshold") (codes "bigint") (
          group_having (codes "count(*) > %(count_threshold)s") (codes "count_threshold")
            (int count_threshold) q)
      else q

  -- The grid is given by `x_div` and `y_div`, the two fields that the query reads.
  unfoldable pub global_grid_query : (x_div y_div : F) → TimeInterval → ℤ → Query (Param F)
  unfolding new_query set_columns param cast add_time_interval group_by more_than
  global_grid_query x_div y_div interval count_threshold =
      let columns =
        codes "ROUND((ST_X(geog::geometry) - %(xdiv)s * 0.5) / %(xdiv)s)::integer AS rx"
        ∷ codes "ROUND((ST_Y(geog::geometry) - %(ydiv)s * 0.5) / %(ydiv)s)::integer AS ry"
        ∷ codes "count(*) AS strike_count"
        ∷ codes "max(\"timestamp\") as \"timestamp\""
        ∷ [] in
      let q = set_columns columns (new_query (codes "strikes")) in
      let with_x =
        cast (codes "xdiv") (codes "double precision") (param (codes "xdiv") (float x_div) q) in
      let with_y =
        cast (codes "ydiv") (codes "double precision")
          (param (codes "ydiv") (float y_div) with_x) in
      more_than count_threshold
        (group_by (codes "ry") (group_by (codes "rx") (add_time_interval interval with_y)))

  unfoldable pub in_region : Option ℤ → Query (Param F) → Query (Param F)
  unfolding condition param cast
  in_region none q = q
  in_region (some region) q =
      where_param (codes "region = %(region)s") (codes "region") (int region) (codes "smallint") q

  unfoldable pub in_envelope : Option (List ℕ) → Query (Param F) → Query (Param F)
  unfolding condition param cast
  in_envelope none q = q
  in_envelope (some polygon) q = cast (codes "envelope_srid") (codes "integer") (
      param (codes "envelope_srid") (int (pos 4326)) (
        where_param (codes "ST_SetSRID(CAST(%(envelope)s AS geometry), %(envelope_srid)s) && geog")
          (codes "envelope") (bytea polygon) (codes "bytea") q))

  unfoldable pub histogram_query : TimeInterval → ℤ → Option ℤ → Option (List ℕ) → Query (Param F)
  unfolding new_query set_columns param cast add_time_interval group_by order_by in_region
      in_envelope
  histogram_query interval binsize region envelope =
      let columns =
        codes "-extract( epoch from %(end_time)s - \"timestamp\")::int/60/%(binsize)s as interval"
        ∷ codes "count(*)"
        ∷ [] in
      let q = set_columns columns (new_query (codes "strikes")) in
      let with_end =
        cast (codes "end_time") (codes "timestamptz")
          (param (codes "end_time") (timestamp interval.end) q) in
      let with_bins =
        cast (codes "binsize") (codes "integer") (param (codes "binsize") (int binsize) with_end) in
      let grouped =
        order_by (codes "interval") false
          (group_by (codes "interval") (add_time_interval interval with_bins)) in
      in_envelope envelope (in_region region grouped)
