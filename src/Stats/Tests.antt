-- ===== src/Stats/Tests.antt =====
-- The statistics of src/stats at concrete logs.
use mathlib.Core.List.Perm
use mathlib.Core.List.{Perm, filter_map}
use bo_srv_rs.Common.{
  ℕ, ◌+◌, min, false, List, [], ◌∷◌, ◌++◌, map, none, some, ◌≡◌, refl, length, All, count, is_none,
}
use bo_srv_rs.Common.Int.{pos, negsuc}
use bo_srv_rs.Common.Text.Decimal.{Text, codes, parse_ℕ, parse_i64}
use bo_srv_rs.Stats.Row.{
  ServiceLogRow, is_local, is_global, is_region, is_grid, is_cluster, parse_row, parse_content,
  parse_line, row_of_fields, parse_query_type, dash_to_none, parse_version, dash_to_int,
}
use bo_srv_rs.Common.Text.Fields.{lines, drop_empty, has, has-Without, strip_cr}
use bo_srv_rs.Common.Text.Order.{text_lt, text_eq}
use bo_srv_rs.Common.Text.Trim.{trim}
use bo_srv_rs.Stats.Content.{unlines, IsLine, is_malformed, parse_content-unlines}
use bo_srv_rs.Stats.Counter.{Counter}
use bo_srv_rs.Stats.Aggregate.{
  aggregate, take_top, top_entry, TopEntry, total, grid_sum, cluster_sum, local_sum, global_sum,
  region_sum,
}
use bo_srv_rs.Stats.Aggregate.Totals.{aggregate-count, is_unclassified, is_placed}
use bo_srv_rs.Stats.Aggregate.Matrix.{aggregate_total, aggregate_sums}
use bo_srv_rs.Stats.Aggregate.Top.{take_top_of_perm, take_top_best, Above, IsRanked}
use bo_srv_rs.Stats.Aggregate.Local.{aggregate-local, HasArea, sum_areas}
use bo_srv_rs.Stats.Aggregate.Labels.{aggregate-labels, CountsRows, version_of}

abbrev local_row : ServiceLogRow ℕ
local_row = record {
  timestamp = codes "12:34:56.789";
  country = some (codes "DE");
  city = none;
  platform = codes "A";
  version = some (pos 173);
  query_type = b'G';
  minute_offset = negsuc 59;
  minute_length = pos 10;
  grid_baselength = some (pos 5000);
  region = negsuc 0;
  count_threshold = some (pos 0);
  x = some (pos 3);
  y = some (pos 9);
  data_area = some (pos 2);
  fill = some 7;
}

abbrev rows : List (ServiceLogRow ℕ)
rows =
    local_row
    ∷ record local_row { region = pos 0; country = none; minute_length = pos 60 }
    ∷ record local_row { query_type = b'C'; region = pos 2; version = none }
    ∷ record local_row { x = none }
    ∷ []

-- A row with a region below -1, which no cell counts.
abbrev odd_rows : List (ServiceLogRow ℕ)
odd_rows = record local_row { region = negsuc 1 } ∷ rows

abbrev counter : Counter Text
counter = (codes "FR", 2) ∷ (codes "DE", 2) ∷ (codes "AT", 5) ∷ []

aggregate-count_example :
    let s = aggregate rows 2 in
    (s.total_requests ≡ length rows)
    × (s.grid_requests ≡ count is_grid rows)
    × (s.cluster_requests ≡ count is_cluster rows)
    × (s.local_requests ≡ count is_local rows)
    × (s.global_requests ≡ count is_global rows)
    × (s.region_requests ≡ count is_region rows)
aggregate-count_example = aggregate-count rows 2

aggregate_total_example :
    total (aggregate odd_rows 2).query_matrix + count is_unclassified odd_rows
    ≡ (aggregate odd_rows 2).total_requests
aggregate_total_example = aggregate_total odd_rows 2

aggregate_sums_example :
    let s = aggregate rows 2 in
    (grid_sum s.query_matrix ≡ s.grid_requests)
    × (cluster_sum s.query_matrix ≡ s.cluster_requests)
    × (local_sum s.query_matrix ≡ s.local_requests)
    × (global_sum s.query_matrix ≡ s.global_requests)
    × (region_sum s.query_matrix ≡ s.region_requests)
    × (total s.query_matrix ≡ s.total_requests)
aggregate_sums_example = aggregate_sums rows 2 (refl, (refl, (refl, (refl, tt))))

aggregate-local_example :
    let s = aggregate rows 2 in
    (length s.local_queries ≡ count is_placed rows)
    × (s.offline_requests + s.interactive_requests ≡ count is_placed rows)
    × (sum_areas s.data_area_distribution ≡ count is_placed rows)
    × All HasArea s.local_queries
aggregate-local_example = aggregate-local rows 2

aggregate-labels_example :
    let s = aggregate rows 2 in
    All (CountsRows (λ r. r.country) rows) s.countries
    × All (CountsRows (λ r. r.city) rows) s.cities
    × All (CountsRows version_of rows) s.versions
    × (s.unknown_country ≡ count (λ r. is_none r.country) rows)
    × (s.unknown_city ≡ count (λ r. is_none r.city) rows)
    × (s.unknown_version ≡ count (λ r. is_none r.version) rows)
aggregate-labels_example = aggregate-labels rows 2

take_top_of_perm_example :
    take_top counter 2 ≡ take_top ((codes "DE", 2) ∷ (codes "FR", 2) ∷ (codes "AT", 5) ∷ []) 2
take_top_of_perm_example =
    take_top_of_perm counter ((codes "DE", 2) ∷ (codes "FR", 2) ∷ (codes "AT", 5) ∷ []) 2
      (Perm.swap (codes "DE", 2) (codes "FR", 2) ((codes "AT", 5) ∷ []))

take_top_best_example :
    (rest : List TopEntry) × Perm (take_top counter 2 ++ rest) (map top_entry counter)
    × IsRanked (take_top counter 2)
    × (length (take_top counter 2) ≡ min 2 (length counter))
    × All (λ a. All (Above a) rest) (take_top counter 2)
take_top_best_example = take_top_best counter 2

take_top-counter :
    map (λ (e : TopEntry). e.label) (take_top counter 2) ≡ codes "AT" ∷ codes "DE" ∷ []
unfolding take_top text_lt
take_top-counter = refl

-- A row, a blank line and a line with too few columns.
abbrev texts : List Text
texts =
    codes "12:34:56.789\tDE\t-\t\t\t\tA\t173\tG\t-60\t10\t5000\t-1\t0\t3\t9\t2\t7"
    ∷ codes " "
    ∷ codes "12:34:56.789\tDE"
    ∷ []

is_line : (t : Text) → has b'\n' t ≡ false → strip_cr t ≡ t → IsLine t
is_line t h e = record { without = has-Without b'\n' t h; ends = e }

texts_are_lines : All IsLine texts
unfolding has
texts_are_lines = (is_line _ refl refl, (is_line _ refl refl, (is_line _ refl refl, tt)))

parse_content-unlines_example :
    ((parse_content parse_ℕ (unlines texts)).rows ≡ filter_map (parse_row parse_ℕ) texts)
    × ((parse_content parse_ℕ (unlines texts)).malformed ≡ count (is_malformed parse_ℕ) texts)
parse_content-unlines_example = parse_content-unlines parse_ℕ texts texts_are_lines

parse_content-texts :
    parse_content parse_ℕ (unlines texts) ≡ record { rows = local_row ∷ []; malformed = 1 }
unfolding parse_content parse_row lines parse_line trim row_of_fields drop_empty parse_query_type
    parse_i64 dash_to_none parse_version dash_to_int text_eq
parse_content-texts = refl
