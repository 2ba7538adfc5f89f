-- ===== src/ServiceLog/RoundTrip/Columns.antt =====
-- The columns of a row of `build_row` (src/service_log.rs), one behind the other.
use bo_srv_rs.Common.{
  ℕ, suc, ◌-◌, ◌/◌, min, false, List, [], ◌∷◌, ◌++◌, Option, none, some, ◌>>=◌, ◌≡◌, refl, ap, ◌∙◌,
  arith, ◌==◌, All-append, length, replicate,
}
use bo_srv_rs.Common.Int.{ℤ, div_euclid, rem_euclid}
use bo_srv_rs.Common.Text.Decimal.{Text, codes, print_ℤ, IsI64}
use bo_srv_rs.Common.Text.Fields.{IsField, Without, fields, fields_append}
use bo_srv_rs.Common.Text.Order.{text_eq}
use bo_srv_rs.Common.Text.Trim.{is_empty, trim_end_matches, StartsVisibly}
use bo_srv_rs.ServiceLog.Entry.{ServiceLogEntry, LocalGridLog, client_platform}
use bo_srv_rs.ServiceLog.Row.{
  calc_tab_pad_count, pad_city, three_digits, format_timestamp, print_local, print_fill,
}
use bo_srv_rs.ServiceLog.RoundTrip.Cells.{FitsInt, FitsText, print_ℤ-IsField, fields_tabs}
use bo_srv_rs.Stats.Row.{dash_to_f64, is_line_end}

-- The time of day by `chrono`: a text such as 12:34:56.
pub record RendersTime (hms : ℤ → Text) : Type 0 where
  pub field : (seconds : ℤ) → IsField b'\t' (hms seconds)
  pub visible : (seconds : ℤ) → StartsVisibly (hms seconds)

-- A float with three decimals: a text such as 12.500, without a line end.
pub record RendersFixed {F : Type 0} (format_fixed : F → ℕ → Text) : Type 0 where
  pub field : (f : F) → IsField b'\t' (format_fixed f 3)
  pub ends : (f : F) → trim_end_matches is_line_end (format_fixed f 3) ≡ format_fixed f 3
  pub not_dash : (f : F) → text_eq (format_fixed f 3) (codes "-") ≡ false

abbrev pub FitsLocal : Option LocalGridLog → Type 0
FitsLocal none = Unit
FitsLocal (some l) = IsI64 l.x × IsI64 l.y × IsI64 l.data_area

-- An entry whose numbers are `i64` and whose query type is no tab, with its version and place.
pub record Fits {F : Type 0} (entry : ServiceLogEntry F) (version : Option ℤ)
    (country city : Option Text) : Type 0 where
  pub version_fits : FitsInt version
  pub country_fits : FitsText country
  pub city_fits : FitsText city
  pub query_type_fits : (entry.query_type == b'\t') ≡ false
  pub offset_fits : IsI64 entry.minute_offset
  pub length_fits : IsI64 entry.minute_length
  pub grid_fits : FitsInt entry.grid_baselength
  pub region_fits : IsI64 entry.region
  pub threshold_fits : FitsInt entry.count_threshold
  pub local_fits : FitsLocal entry.local

pub step :
    (f rest : Text) (fs : List Text)
    → IsField b'\t' f
    → fields b'\t' rest ≡ fs
    → fields b'\t' (f ++ (b'\t' ∷ rest)) ≡ f ∷ fs
step f rest fs h e = fields_append b'\t' f rest h ∙ ap (◌∷◌ f) e

pub pad_city-cons : (city : Text) → (n : ℕ) × (pad_city city ≡ b'\t' ∷ replicate n b'\t')
unfolding pad_city calc_tab_pad_count
pad_city-cons city =
    let n = 3 - min (length city / 8) 3 in
    let e : 4 - min (length city / 8) 3 ≡ suc n = omega arith in (n, rw e refl)

pub step_city :
    (city rest : Text) (fs : List Text)
    → IsField b'\t' city
    → fields b'\t' rest ≡ fs
    → fields b'\t' (city ++ (pad_city city ++ rest)) ≡ city ∷ fs
step_city city rest fs h e =
    let (n, pad) = pad_city-cons city in
    rw pad (step city (replicate n b'\t' ++ rest) fs h (fields_tabs n rest ∙ e))

-- A text that is not empty and does not end in a line end.
pub record Keeps (u : Text) : Type 0 where
  pub ends : trim_end_matches is_line_end u ≡ u
  pub filled : is_empty u ≡ false

pub Keeps-cons : (c : ℕ) (u : Text) → Keeps u → Keeps (c ∷ u)
unfolding trim_end_matches
Keeps-cons c u h = record { ends = rw (h.ends, h.filled) refl; filled = refl }

pub column : {u : Text} → Keeps u → Keeps (b'\t' ∷ u)
column {u} h = Keeps-cons b'\t' u h

pub Keeps-append : (t u : Text) → Keeps u → Keeps (t ++ u)
Keeps-append [] u h = h
Keeps-append (c ∷ t) u h = Keeps-cons c (t ++ u) (Keeps-append t u h)

pub client_platform-IsField :
    (agent : Option Text) (version : Option ℤ) → IsField b'\t' (client_platform agent version)
unfolding client_platform
client_platform-IsField none version = record { filled = refl; without = (refl, tt) }
client_platform-IsField (some agent) version = ground arith

pub append-IsField : (t u : Text) → IsField b'\t' t → Without b'\t' u → IsField b'\t' (t ++ u)
append-IsField [] u h w = absurd (ground (arith, h.filled))
append-IsField (c ∷ t) u h w = record {
  filled = refl;
  without = All-append (λ d. (d == b'\t') ≡ false) (c ∷ t) u h.without w;
}

pub append-StartsVisibly : (t u : Text) → StartsVisibly t → StartsVisibly (t ++ u)
append-StartsVisibly [] u h = absurd h
append-StartsVisibly (c ∷ t) u h = h

abbrev pub local_texts : Option LocalGridLog → List Text → List Text
local_texts none rest = codes "-" ∷ codes "-" ∷ codes "-" ∷ rest
local_texts (some l) rest = print_ℤ l.x ∷ print_ℤ l.y ∷ print_ℤ l.data_area ∷ rest

pub dash-IsField : IsField b'\t' (codes "-")
dash-IsField = record { filled = refl; without = (refl, tt) }

-- The columns in front of and behind the local columns.
pub step_local :
    (f rest : Text) (l : Option LocalGridLog) (fs : List Text)
    → IsField b'\t' f
    → fields b'\t' rest ≡ fs
    → fields b'\t' (f ++ print_local l (b'\t' ∷ rest)) ≡ f ∷ local_texts l fs
step_local f rest none fs h e = step f _ _ h (
    step (codes "-") _ _ dash-IsField
      (step (codes "-") _ _ dash-IsField (step (codes "-") _ _ dash-IsField e)))
step_local f rest (some l) fs h e = step f _ _ h (
    step (print_ℤ l.x) _ _ (print_ℤ-IsField l.x) (
      step (print_ℤ l.y) _ _ (print_ℤ-IsField l.y)
        (step (print_ℤ l.data_area) _ _ (print_ℤ-IsField l.data_area) e)))

pub Keeps-local : (l : Option LocalGridLog) (u : Text) → Keeps u → Keeps (print_local l u)
Keeps-local none u h = Keeps-append (b'\t' ∷ b'-' ∷ b'\t' ∷ b'-' ∷ b'\t' ∷ b'-' ∷ []) u h
Keeps-local (some l) u h = Keeps-cons _ _ (
    Keeps-append (print_ℤ l.x) _ (
      Keeps-cons _ _
        (Keeps-append (print_ℤ l.y) _ (Keeps-cons _ _ (Keeps-append (print_ℤ l.data_area) u h)))))

module _ {F : Type 0} (hms : ℤ → Text) (format_fixed : F → ℕ → Text) (parse_f64 : Text → Option F)
    (time : RendersTime hms) (fixed : RendersFixed format_fixed) where
  pub timestamp-IsField : (now_us : ℤ) → IsField b'\t' (format_timestamp hms now_us)
  unfolding format_timestamp
  timestamp-IsField now_us =
      let ms = rem_euclid (div_euclid now_us 1000) 1000 in
      append-IsField (hms (div_euclid now_us 1000000)) (b'.' ∷ three_digits ms)
        (time.field (div_euclid now_us 1000000)) (ground arith)

  pub timestamp_visible : (now_us : ℤ) → StartsVisibly (format_timestamp hms now_us)
  unfolding format_timestamp
  timestamp_visible now_us =
      append-StartsVisibly (hms (div_euclid now_us 1000000)) _
        (time.visible (div_euclid now_us 1000000))

  pub fill-IsField : (o : Option F) → IsField b'\t' (print_fill hms format_fixed o)
  fill-IsField none = dash-IsField
  fill-IsField (some f) = fixed.field f

  pub fill-Keeps : (o : Option F) → Keeps (print_fill hms format_fixed o)
  unfolding trim_end_matches
  fill-Keeps none = record { ends = refl; filled = refl }
  fill-Keeps (some f) = record { ends = fixed.ends f; filled = (fixed.field f).filled }

  pub dash_to_f64-print_fill :
      (o : Option F)
      → dash_to_f64 parse_f64 (print_fill hms format_fixed o)
        ≡ (o >>= λ f. parse_f64 (format_fixed f 3))
  unfolding dash_to_f64 text_eq
  dash_to_f64-print_fill none = refl
  dash_to_f64-print_fill (some f) = rw (fixed.not_dash f) refl
