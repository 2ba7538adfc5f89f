-- ===== src/Query/Values.antt =====
-- The values that go to the database with the queries of src/query.rs.
use mathlib.Core.List.{filter_map}
use bo_srv_rs.Common.{
  ℕ, List, [], ◌∷◌, ◌++◌, Option, none, some, ◌≡◌, refl, if◌then◌else◌, Bool-cases, inl, inr,
}
use bo_srv_rs.Common.Int.{ℤ, pos, ltb_ℤ}
use bo_srv_rs.Query.Builder.{parameters}
use bo_srv_rs.Query.Statements.{
  Param, int, float, bytea, timestamp, TimeInterval, strikes_query, global_grid_query, more_than,
  histogram_query,
}

-- The value of an optional integer.
abbrev pub int_values : {F : Type 0} → Option ℤ → List (Param F)
int_values none = []
int_values (some n) = int n ∷ []

-- The polygon of an envelope and its reference system.
abbrev pub envelope_values : {F : Type 0} → Option (List ℕ) → List (Param F)
envelope_values none = []
envelope_values (some polygon) = bytea polygon ∷ int (pos 4326) ∷ []

histogram_query-values :
    {F : Type 0} (interval : TimeInterval) (binsize : ℤ) (region : Option ℤ)
    (envelope : Option (List ℕ))
    → parameters (histogram_query {F = F} interval binsize region envelope)
      ≡ timestamp interval.end
        ∷ int binsize
        ∷ timestamp interval.start
        ∷ (int_values region ++ envelope_values envelope)
unfolding parameters histogram_query filter_map
histogram_query-values interval binsize none none = refl
histogram_query-values interval binsize (some r) none = refl
histogram_query-values interval binsize none (some e) = refl
histogram_query-values interval binsize (some r) (some e) = refl

strikes_query-values :
    {F : Type 0} (interval : TimeInterval) (start_id : Option ℤ)
    → parameters (strikes_query {F = F} interval start_id)
      ≡ timestamp interval.start ∷ timestamp interval.end ∷ int_values start_id
unfolding parameters strikes_query filter_map
strikes_query-values interval none = refl
strikes_query-values interval (some n) = refl

global_grid_query-values :
    {F : Type 0} (x_div y_div : F) (interval : TimeInterval) (threshold : ℤ)
    → parameters (global_grid_query x_div y_div interval threshold)
      ≡ float x_div
        ∷ float y_div
        ∷ timestamp interval.start
        ∷ timestamp interval.end
        ∷ int_values (if ltb_ℤ (pos 0) threshold then some threshold else none)
unfolding parameters global_grid_query more_than filter_map
global_grid_query-values x_div y_div interval threshold =
    elim (Bool-cases (ltb_ℤ (pos 0) threshold)) [ inl h ↦ rw h refl | inr h ↦ rw h refl ]

-- Whichever of the optional conditions are given, these are the values that go to the database
-- with the placeholders, in their order. For the strikes: the two ends of the interval, then the
-- first id, if there is one. For the global grid: the two sizes of a cell, the two ends, then the
-- threshold, if it is positive. For the histogram: the end of the interval, the size of a bin,
-- the start, then the region and the polygon of the envelope with its reference system, each if
-- it is given. The end, which the histogram names twice, is sent once.
pub query_values :
    {F : Type 0} (interval : TimeInterval) (start_id region : Option ℤ) (threshold binsize : ℤ)
    (x_div y_div : F) (envelope : Option (List ℕ))
    → (parameters (strikes_query {F = F} interval start_id)
        ≡ timestamp interval.start ∷ timestamp interval.end ∷ int_values start_id)
      × (parameters (global_grid_query x_div y_div interval threshold)
          ≡ float x_div
            ∷ float y_div
            ∷ timestamp interval.start
            ∷ timestamp interval.end
            ∷ int_values (if ltb_ℤ (pos 0) threshold then some threshold else none))
      × (parameters (histogram_query {F = F} interval binsize region envelope)
          ≡ timestamp interval.end
            ∷ int binsize
            ∷ timestamp interval.start
            ∷ (int_values region ++ envelope_values envelope))
query_values interval start_id region threshold binsize x_div y_div envelope = (
  strikes_query-values interval start_id,
  global_grid_query-values x_div y_div interval threshold,
  histogram_query-values interval binsize region envelope,
)
