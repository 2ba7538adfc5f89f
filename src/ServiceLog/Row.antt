-- ===== src/ServiceLog/Row.antt =====
-- `build_row` and what it formats (src/service_log.rs).
use bo_srv_rs.Common.{
  ℕ, ◌+◌, ◌-◌, ◌/◌, ◌%◌, min, [], ◌∷◌, ◌++◌, Option, none, some, length, replicate,
}
use bo_srv_rs.Common.Int.{ℤ, div_euclid, rem_euclid}
use bo_srv_rs.Common.Text.Decimal.{Text, codes, print_ℤ}
use bo_srv_rs.ServiceLog.Entry.{ServiceLogEntry, LocalGridLog, client_platform}

abbrev pub tab_stop : ℕ
tab_stop = 8

abbrev pub city_tabs : ℕ
city_tabs = 4

unfoldable pub calc_tab_pad_count : ℕ → ℕ
calc_tab_pad_count len = city_tabs - min (len / tab_stop) (city_tabs - 1)

unfoldable pub pad_city : Text → Text
unfolding calc_tab_pad_count
pad_city city = replicate (calc_tab_pad_count (length city)) b'\t'

-- `{:03}` of a number below 1000.
abbrev pub three_digits : ℕ → Text
three_digits n = (b'0' + n / 100) ∷ (b'0' + n / 10 % 10) ∷ (b'0' + n % 10) ∷ []

-- `hms` is the rendering `%H:%M:%S` of a number of seconds since the epoch by `chrono`.
unfoldable pub format_timestamp : (ℤ → Text) → ℤ → Text
format_timestamp hms now_us =
    hms (div_euclid now_us 1000000)
    ++ (b'.' ∷ three_digits (rem_euclid (div_euclid now_us 1000) 1000))

-- One column, a tab, and the columns behind it.
infixr 5 ◌⇥◌
abbrev pub ◌⇥◌ : Text → Text → Text
t ⇥ rest = t ++ (b'\t' ∷ rest)

abbrev pub or_dash : Option Text → Text
or_dash none = codes "-"
or_dash (some t) = t

abbrev pub print_or : Text → Option ℤ → Text
print_or other none = other
print_or other (some z) = print_ℤ z

abbrev pub print_local : Option LocalGridLog → Text → Text
print_local none rest = b'\t' ∷ b'-' ∷ b'\t' ∷ b'-' ∷ b'\t' ∷ b'-' ∷ rest
print_local (some l) rest =
    b'\t' ∷ (print_ℤ l.x ++ (b'\t' ∷ (print_ℤ l.y ++ (b'\t' ∷ (print_ℤ l.data_area ++ rest)))))

module _ {F : Type 0} (hms : ℤ → Text) (format_fixed : F → ℕ → Text) where
  abbrev pub print_fill : Option F → Text
  print_fill none = codes "-"
  print_fill (some f) = format_fixed f 3

  -- `format_fixed` is `py_format_fixed` of src/round.rs.
  unfoldable pub build_row : ServiceLogEntry F → Option ℤ → Option Text → Option Text → Text
  build_row entry version country_code city =
      let platform = client_platform entry.user_agent version in
      let city_text = or_dash city in
      let timestamp = format_timestamp hms entry.now_us in
      let country = or_dash country_code in
      timestamp
      ⇥ country
      ⇥ city_text
        ++ (pad_city city_text
            ++ (platform
                ⇥ print_or (codes "None") version
                ⇥ (entry.query_type ∷ [])
                ⇥ print_ℤ entry.minute_offset
                ⇥ print_ℤ entry.minute_length
                ⇥ print_or (codes "-") entry.grid_baselength
                ⇥ print_ℤ entry.region
                ⇥ print_or (codes "-") entry.count_threshold
                  ++ print_local entry.local (b'\t' ∷ print_fill entry.fill)))
