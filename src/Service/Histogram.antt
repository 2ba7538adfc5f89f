-- ===== src/Service/Histogram.antt =====
-- `build_histogram` (src/service.rs). A row of the query is its two columns, each of which may be
-- missing. A panic of the source is an error of its own; that there is memory for the bins is
-- assumed.
use native.Mathlib.Nat.{mod-lt}
use bo_srv_rs.Common.{
  ℕ, zero, suc, ◌+◌, ◌-◌, ◌/◌, ◌%◌, ◌^◌, ◌≤◌, ◌<◌, ltb, ◌&&◌, List, [], ◌∷◌, Option, none, some,
  ◌≡◌, ◌↔◌, ◌⊎◌, inl, inr, Bool-cases, refl, ◌∙◌, ap, arith, ◌==◌, leb, if◌then◌else◌, length,
  replicate, All,
}
use bo_srv_rs.Common.Int.{
  ℤ, pos, negsuc, ◌+ℤ◌, ◌-ℤ◌, ltb_ℤ, ◌≤ℤ◌, rem_euclid, pos_part, neg_part, wrap_i64, wrap_i64_id,
}
use bo_srv_rs.Common.Result.{Result, ok, err}

pub data HistogramError : Type 0 where
  missing_interval : HistogramError
  missing_count : HistogramError
  histogram_index : ℤ → HistogramError
  panicked : HistogramError

-- The test of the bounds.
unfoldable pub in_bounds : ℕ → ℤ → ℤ → Result ℕ HistogramError
in_bounds value_count interval (negsuc n) = err (histogram_index interval)
in_bounds value_count interval (pos n) =
    if leb value_count n then err (histogram_index interval) else ok n

-- `(minutes / bin_size) as usize`, or nothing if the source panics: at the division, which rounds
-- towards zero, or at the allocation, since a negative quotient becomes a huge capacity.
unfoldable pub value_count : (minutes bin_size : ℤ) → Option ℕ
value_count (pos m) (pos d) = if d == 0 then none else some (m / d)
value_count (pos m) (negsuc d) = if ltb m (suc d) then some 0 else none
value_count (negsuc m) (pos d) = if ltb (suc m) d then some 0 else none
value_count (negsuc m) (negsuc d) = if suc m == 2 ^ 63 && d == 0 then none else some (suc m / suc d)

-- `interval + value_count as i64 - 1`.
unfoldable pub bin_position : ℕ → ℤ → ℤ
bin_position value_count interval = wrap_i64 (wrap_i64 (interval +ℤ pos value_count) -ℤ pos 1)

unfoldable pub bin_index : ℕ → ℤ → Result ℕ HistogramError
unfolding in_bounds bin_position
bin_index value_count interval =
    let index = bin_position value_count interval in
    if ltb_ℤ index (pos 0)
    then (if value_count == 0
        then err panicked
        else in_bounds value_count interval (pos (rem_euclid index value_count)))
    else in_bounds value_count interval index

abbrev pub set_at : ℕ → ℤ → List ℤ → List ℤ
set_at n v [] = []
set_at zero v (x ∷ xs) = v ∷ xs
set_at (suc n) v (x ∷ xs) = x ∷ set_at n v xs

abbrev pub set_bin : Result ℕ HistogramError → ℤ → List ℤ → Result (List ℤ) HistogramError
set_bin (err e) v bins = err e
set_bin (ok n) v bins = ok (set_at n v bins)

-- One round of the loop.
unfoldable pub count_bin : ℕ → Option ℤ × Option ℤ → List ℤ → Result (List ℤ) HistogramError
unfolding bin_index
count_bin value_count (none, count) bins = err missing_interval
count_bin value_count (some interval, none) bins = err missing_count
count_bin value_count (some interval, some count) bins =
    set_bin (bin_index value_count interval) count bins

unfoldable pub count_bins :
    ℕ → List (Option ℤ × Option ℤ) → Result (List ℤ) HistogramError → Result (List ℤ) HistogramError
unfolding count_bin
count_bins value_count rows (err e) = err e
count_bins value_count [] (ok bins) = ok bins
count_bins value_count (row ∷ rows) (ok bins) =
    count_bins value_count rows (count_bin value_count row bins)

abbrev pub fill_bins : List (Option ℤ × Option ℤ) → Option ℕ → Result (List ℤ) HistogramError
fill_bins rows none = err panicked
fill_bins rows (some value_count) = count_bins value_count rows (ok (replicate value_count (pos 0)))

unfoldable pub build_histogram : List (Option ℤ × Option ℤ) → ℤ → ℤ → Result (List ℤ) HistogramError
unfolding count_bins value_count
build_histogram rows minutes bin_size = fill_bins rows (value_count minutes bin_size)

-- An interval is an i64, and so is its sum with the number of bins.
abbrev pub FitsI64 : ℕ → Option ℤ × Option ℤ → Type 0
FitsI64 value_count (none, count) = Unit
FitsI64 value_count (some interval, count) =
    (pos_part interval + value_count < 2 ^ 63) × (neg_part interval ≤ 2 ^ 63)

bin_position-small :
    (value_count : ℕ) (interval : ℤ) (count : Option ℤ)
    → 0 < value_count
    → FitsI64 value_count (some interval, count)
    → bin_position value_count interval ≡ interval +ℤ pos value_count -ℤ pos 1
unfolding bin_position ◌+ℤ◌ ◌-ℤ◌
bin_position-small value_count interval count p h =
    let sum = wrap_i64_id (interval +ℤ pos value_count) (ground (arith, h)) (ground (arith, h)) in
    rw (sum, bin_position)
      (wrap_i64_id (interval +ℤ pos value_count -ℤ pos 1) (ground (arith, h, p))
        (ground (arith, h, p)))

placed :
    (value_count : ℕ) (interval : ℤ)
    → 0 < value_count
    → let index = interval +ℤ pos value_count -ℤ pos 1 in
      let found =
        (if ltb_ℤ index (pos 0)
          then (if value_count == 0
              then err panicked
              else in_bounds value_count interval (pos (rem_euclid index value_count)))
          else in_bounds value_count interval index) in
      ((pos 1 ≤ℤ interval) × (found ≡ err (histogram_index interval)))
      ⊎ ((interval ≤ℤ pos 0) × ((n : ℕ) × ((n < value_count) × (found ≡ ok n))))
unfolding in_bounds ◌+ℤ◌ ◌-ℤ◌ rem_euclid
placed value_count (pos zero) h = inr (omega arith, (value_count - 1, (omega arith, ground arith)))
placed value_count (pos (suc k)) h = inl (omega arith, ground arith)
placed value_count (negsuc k) h = elim (Bool-cases (leb (k + 2) value_count)) [
  | inl e ↦ inr (omega arith, (value_count - (k + 2), (ground (arith, e), ground (arith, e))))
  | inr e ↦
      let n = k + 1 - value_count in
      inr (
        omega arith,
        (value_count - 1 - n % value_count, (omega arith, ground (arith, e, mod-lt n h))),
      )
]

-- Which bin a row belongs to, without an overflow. Interval 0 is the last bin and each earlier interval one bin in
-- front; an interval in front of the first bin is taken modulo the number of bins; and exactly
-- the positive intervals are out of range.
pub bin_index-cases :
    (value_count : ℕ) (interval : ℤ)
    → 0 < value_count
    → FitsI64 value_count (some interval, some (pos 0))
    → ((pos 1 ≤ℤ interval) × (bin_index value_count interval ≡ err (histogram_index interval)))
      ⊎ ((interval ≤ℤ pos 0)
          × ((n : ℕ) × ((n < value_count) × (bin_index value_count interval ≡ ok n))))
unfolding bin_index
bin_index-cases value_count interval h fits =
    let index = bin_position-small value_count interval (some (pos 0)) h fits in
    rw (bin_index, index) (placed value_count interval h)

-- A row with both columns, at the last interval or in front of it.
abbrev pub IsCounted : Option ℤ × Option ℤ → Type 0
IsCounted (none, count) = ⊥
IsCounted (some interval, none) = ⊥
IsCounted (some interval, some count) = interval ≤ℤ pos 0

length-set_at : (n : ℕ) (v : ℤ) (xs : List ℤ) → length (set_at n v xs) ≡ length xs
length-set_at n v [] = refl
length-set_at zero v (x ∷ xs) = refl
length-set_at (suc n) v (x ∷ xs) = ap suc (length-set_at n v xs)

length-replicate : (n : ℕ) (z : ℤ) → length (replicate n z) ≡ n
length-replicate zero z = refl
length-replicate (suc n) z = ap suc (length-replicate n z)

count_bin-IsCounted :
    (value_count : ℕ) (row : Option ℤ × Option ℤ) (bins : List ℤ)
    → 0 < value_count
    → FitsI64 value_count row
    → IsCounted row
    → (next : List ℤ) × ((count_bin value_count row bins ≡ ok next) × (length next ≡ length bins))
unfolding count_bin
count_bin-IsCounted value_count (none, count) bins p f h = absurd h
count_bin-IsCounted value_count (some interval, none) bins p f h = absurd h
count_bin-IsCounted value_count (some interval, some count) bins p f h =
    elim (bin_index-cases value_count interval p f) [
      | inl (late, e) ↦ absurd (omega (arith, late, h))
      | inr (early, (n, (lt, e))) ↦ (set_at n count bins, (rw e refl, length-set_at n count bins))
    ]

count_bins-IsCounted :
    (value_count : ℕ) (rows : List (Option ℤ × Option ℤ)) (bins : List ℤ)
    → 0 < value_count
    → All (FitsI64 value_count) rows
    → All IsCounted rows
    → (final : List ℤ) × ((count_bins value_count rows (ok bins) ≡ ok final)
        × (length final ≡ length bins))
unfolding count_bins
count_bins-IsCounted value_count [] bins p f h = (bins, (refl, refl))
count_bins-IsCounted value_count (row ∷ rows) bins p f h =
    let (next, (e, l)) = count_bin-IsCounted value_count row bins p f.0 h.0 in
    let (final, (e', l')) = count_bins-IsCounted value_count rows next p f.1 h.1 in
    (final, (rw (e, count_bins) e', l' ∙ l))

count_bin-ok :
    (value_count : ℕ) (row : Option ℤ × Option ℤ) (bins next : List ℤ)
    → 0 < value_count
    → FitsI64 value_count row
    → count_bin value_count row bins ≡ ok next
    → IsCounted row
unfolding count_bin
count_bin-ok value_count (none, count) bins next p f h = cc
count_bin-ok value_count (some interval, none) bins next p f h = cc
count_bin-ok value_count (some interval, some count) bins next p f h =
    elim (bin_index-cases value_count interval p f) [
      | inl (late, e) ↦
          let bad : err (histogram_index interval) ≡ ok next = rw e at h in
          absurd (ground (arith, bad))
      | inr (early, rest) ↦ early
    ]

count_bins-ok :
    (value_count : ℕ) (rows : List (Option ℤ × Option ℤ)) (bins final : List ℤ)
    → 0 < value_count
    → All (FitsI64 value_count) rows
    → count_bins value_count rows (ok bins) ≡ ok final
    → All IsCounted rows
unfolding count_bins
count_bins-ok value_count [] bins final p f h = tt
count_bins-ok value_count (row ∷ rows) bins final p f h =
    behind (count_bin value_count row bins)
      (λ next. count_bins-ok value_count rows next final p f.1) refl h
  where
    behind :
        (r : Result (List ℤ) HistogramError)
        → ((next : List ℤ) → count_bins value_count rows (ok next) ≡ ok final → All IsCounted rows)
        → count_bin value_count row bins ≡ r
        → count_bins value_count rows r ≡ ok final
        → IsCounted row × All IsCounted rows
    behind (err e) rec s w = cc
    behind (ok next) rec s w = (count_bin-ok value_count row bins next p f.0 s, rec next w)

-- The histogram of at least one bin is there exactly if every row has both columns and no
-- interval is positive, as long as no interval leaves the range of an i64 when the number of bins
-- is added: an interval however far in the past does not abort the request.
pub build_histogram-ok :
    (rows : List (Option ℤ × Option ℤ)) (minutes bin_size : ℤ) (n : ℕ)
    → value_count minutes bin_size ≡ some n
    → 0 < n
    → All (FitsI64 n) rows
    → ((bins : List ℤ) × ((build_histogram rows minutes bin_size ≡ ok bins) × (length bins ≡ n)))
      ↔ All IsCounted rows
unfolding build_histogram
build_histogram-ok rows minutes bin_size n e p f =
    let empty_bins = replicate n (pos 0) in
    rw (build_histogram, e)
      (
        (λ h. count_bins-ok n rows empty_bins h.0 p f h.1.0),
        (λ h.
            let (final, (e, l)) = count_bins-IsCounted n rows empty_bins p f h in
            (final, (e, l ∙ length-replicate n (pos 0)))),
      )
