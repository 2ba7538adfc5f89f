-- ===== src/ServiceLog/RoundTrip/Whole.antt =====
-- `parse_row` of src/stats/parse.rs on a row of `build_row` (src/service_log.rs).
use bo_srv_rs.Common.{ℕ, List, [], ◌∷◌, Option, none, some, ◌>>=◌, ◌≡◌, refl, ap, ◌∙◌}
use bo_srv_rs.Common.Int.{ℤ}
use bo_srv_rs.Common.Text.Decimal.{Text, codes, print_ℤ, parse_i64-print_ℤ}
use bo_srv_rs.Common.Text.Fields.{fields, fields_last}
use bo_srv_rs.Common.Text.Trim.{trim_visible, StartsVisibly}
use bo_srv_rs.ServiceLog.Entry.{ServiceLogEntry, LocalGridLog, client_platform}
use bo_srv_rs.ServiceLog.Row.{pad_city, format_timestamp, or_dash, print_or, print_fill, build_row}
use bo_srv_rs.ServiceLog.RoundTrip.Cells.{
  print_ℤ-IsField, print_or-IsField, or_dash-IsField, dash_to_int-print_or, parse_version-print_or,
  dash_to_none-or_dash, dash_to_int_dash,
}
use bo_srv_rs.Stats.Row.{ServiceLogRow, parse_row, row_of_fields, parse_query_type}
use bo_srv_rs.ServiceLog.RoundTrip.Columns.{
  RendersTime, RendersFixed, FitsLocal, Fits, step, step_city, Keeps, Keeps-cons, column,
  Keeps-append, client_platform-IsField, append-StartsVisibly, local_texts, dash-IsField,
  step_local, Keeps-local, timestamp-IsField, timestamp_visible, fill-IsField, fill-Keeps,
  dash_to_f64-print_fill,
}

module _ {F : Type 0} (hms : ℤ → Text) (format_fixed : F → ℕ → Text) (parse_f64 : Text → Option F)
    (time : RendersTime hms) (fixed : RendersFixed format_fixed) where
  module _ (entry : ServiceLogEntry F) (version : Option ℤ) (country city : Option Text) where
    -- The columns in front of the local ones.
    front : List Text → List Text
    front rest =
        format_timestamp hms entry.now_us
        ∷ or_dash country
        ∷ or_dash city
        ∷ client_platform entry.user_agent version
        ∷ print_or (codes "None") version
        ∷ (entry.query_type ∷ [])
        ∷ print_ℤ entry.minute_offset
        ∷ print_ℤ entry.minute_length
        ∷ print_or (codes "-") entry.grid_baselength
        ∷ print_ℤ entry.region
        ∷ print_or (codes "-") entry.count_threshold
        ∷ rest

    printed : List Text
    unfolding front
    printed = front (local_texts entry.local (print_fill hms format_fixed entry.fill ∷ []))

    fields-build_row :
        Fits entry version country city
        → fields b'\t' (build_row hms format_fixed entry version country city) ≡ printed
    unfolding build_row printed
    fields-build_row h =
        step _ _ _ (timestamp-IsField hms format_fixed parse_f64 time fixed entry.now_us) (
          step _ _ _ (or_dash-IsField country h.country_fits) (
            step_city _ _ _ (or_dash-IsField city h.city_fits) (
              step _ _ _ (client_platform-IsField entry.user_agent version) (
                step _ _ _
                  (print_or-IsField (codes "None") version
                    (record { filled = refl; without = (refl, (refl, (refl, (refl, tt)))) }))
                  (step (entry.query_type ∷ []) _ _
                    (record { filled = refl; without = (h.query_type_fits, tt) })
                    (step _ _ _ (print_ℤ-IsField entry.minute_offset) (
                      step _ _ _ (print_ℤ-IsField entry.minute_length) (
                        step _ _ _ (print_or-IsField (codes "-") entry.grid_baselength dash-IsField)
                          (step _ _ _ (print_ℤ-IsField entry.region) (
                            step_local _ _ entry.local _
                              (print_or-IsField (codes "-") entry.count_threshold dash-IsField)
                              (fields_last b'\t' _ (
                                fill-IsField hms format_fixed parse_f64 time fixed
                                  entry.fill))))))))))))

    Keeps-build_row : Keeps (build_row hms format_fixed entry version country city)
    unfolding build_row
    Keeps-build_row = Keeps-append (format_timestamp hms entry.now_us) _ (
        column (
          Keeps-append (or_dash country) _ (
            column (
              Keeps-append (or_dash city) _ (
                Keeps-append (pad_city (or_dash city)) _ (
                  Keeps-append (client_platform entry.user_agent version) _ (
                    column (
                      Keeps-append (print_or (codes "None") version) _ (
                        column (
                          Keeps-cons entry.query_type _ (
                            column (
                              Keeps-append (print_ℤ entry.minute_offset) _ (
                                column (
                                  Keeps-append (print_ℤ entry.minute_length) _ (
                                    column (
                                      Keeps-append (print_or (codes "-") entry.grid_baselength) _ (
                                        column (
                                          Keeps-append (print_ℤ entry.region) _ (
                                            column (
                                              Keeps-append
                                                (print_or (codes "-") entry.count_threshold) _
                                                (Keeps-local entry.local _ (
                                                  column (
                                                    fill-Keeps hms format_fixed parse_f64 time fixed
                                                      entry.fill)))))))))))))))))))))))

    build_row_visible : StartsVisibly (build_row hms format_fixed entry version country city)
    unfolding build_row
    build_row_visible =
        append-StartsVisibly (format_timestamp hms entry.now_us) _
          (timestamp_visible hms format_fixed parse_f64 time fixed entry.now_us)

    parse_row-fields :
        (t : Text)
        → Keeps t
        → StartsVisibly t
        → parse_row parse_f64 t ≡ row_of_fields parse_f64 (fields b'\t' t)
    unfolding parse_row
    parse_row-fields t k v = rw (k.ends, trim_visible t v) refl

    -- The row of the statistics for a logged entry.
    abbrev pub logged : ServiceLogRow F
    logged = record {
      timestamp = format_timestamp hms entry.now_us;
      country = country;
      city = city;
      platform = client_platform entry.user_agent version;
      version = version;
      query_type = entry.query_type;
      minute_offset = entry.minute_offset;
      minute_length = entry.minute_length;
      grid_baselength = entry.grid_baselength;
      region = entry.region;
      count_threshold = entry.count_threshold;
      x = entry.local >>= λ l. some l.x;
      y = entry.local >>= λ l. some l.y;
      data_area = entry.local >>= λ l. some l.data_area;
      fill = entry.fill >>= λ f. parse_f64 (format_fixed f 3);
    }

    row_of_fields-printed :
        Fits entry version country city → row_of_fields parse_f64 printed ≡ some logged
    unfolding printed row_of_fields parse_query_type
    row_of_fields-printed h = at_local entry.local h.local_fits
      where
        at_local :
            (l : Option LocalGridLog)
            → FitsLocal l
            → row_of_fields parse_f64
                (front (local_texts l (print_fill hms format_fixed entry.fill ∷ [])))
              ≡ some (record logged {
                x = l >>= λ a. some a.x;
                y = l >>= λ a. some a.y;
                data_area = l >>= λ a. some a.data_area;
              })
        at_local none w = simp (
          parse_i64-print_ℤ entry.minute_offset h.offset_fits,
          parse_i64-print_ℤ entry.minute_length h.length_fits,
          parse_i64-print_ℤ entry.region h.region_fits,
          dash_to_none-or_dash country h.country_fits,
          dash_to_none-or_dash city h.city_fits,
          parse_version-print_or version h.version_fits,
          dash_to_int-print_or entry.grid_baselength h.grid_fits,
          dash_to_int-print_or entry.count_threshold h.threshold_fits,
          dash_to_f64-print_fill hms format_fixed parse_f64 time fixed entry.fill,
          dash_to_int_dash,
        )
        at_local (some l) w = simp (
          parse_i64-print_ℤ entry.minute_offset h.offset_fits,
          parse_i64-print_ℤ entry.minute_length h.length_fits,
          parse_i64-print_ℤ entry.region h.region_fits,
          dash_to_none-or_dash country h.country_fits,
          dash_to_none-or_dash city h.city_fits,
          parse_version-print_or version h.version_fits,
          dash_to_int-print_or entry.grid_baselength h.grid_fits,
          dash_to_int-print_or entry.count_threshold h.threshold_fits,
          dash_to_f64-print_fill hms format_fixed parse_f64 time fixed entry.fill,
          dash_to_int-print_or (some l.x) w.0,
          dash_to_int-print_or (some l.y) w.1,
          dash_to_int-print_or (some l.data_area) w.2,
        )

    -- The statistics read back from a logged row what was logged: for an entry whose numbers
    -- are 64-bit integers and whose query type is no tab, and a country and a city that are
    -- unknown or not empty, not the placeholder and free of tabs, `parse_row` of `build_row`
    -- gives the time, place, platform, version and every column of the entry, each absent one
    -- as absent; the fill is what the float parser makes of the three printed decimals.
    pub parse_row-build_row :
        Fits entry version country city
        → parse_row parse_f64 (build_row hms format_fixed entry version country city) ≡ some logged
    parse_row-build_row h =
        parse_row-fields (build_row hms format_fixed entry version country city) Keeps-build_row
          build_row_visible
        ∙ ap (row_of_fields parse_f64) (fields-build_row h)
        ∙ row_of_fields-printed h
