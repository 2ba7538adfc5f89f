-- ===== src/Stats/Aggregate/Labels.antt =====
-- The tops of `aggregate` (src/stats/aggregate.rs) against the rows.
use bo_srv_rs.Common.{
  bit, count, is_none, ℕ, ◌+◌, Bool, true, false, List, [], ◌∷◌, map, Option, none, some, ◌≡◌, refl,
  ◌∙◌, sym, ap, arith, All, All-take, Bool-cases, inl, inr,
}
use bo_srv_rs.Common.Text.Decimal.{Text, print_ℤ}
use bo_srv_rs.Common.Text.Order.{text_eq, text_eq_iff}
use bo_srv_rs.Stats.Counter.{Counter, bump, count_of, count_of-bump}
use bo_srv_rs.Common.Sort.{All-sort}
use bo_srv_rs.Stats.Row.{ServiceLogRow}
use bo_srv_rs.Stats.Aggregate.Types.{Tally, start, TopEntry}
use bo_srv_rs.Stats.Aggregate.Defs.{
  top_entry, ranks_before, take_top, count_request, count_country, count_city, count_version,
  count_local, push_query, count_row, count_rows, aggregate,
}
use bo_srv_rs.Stats.Aggregate.Totals.{count_rows-count}

-- Every key of a counter is there once.
abbrev DistinctKeys : Counter Text → Type 0
DistinctKeys [] = Unit
DistinctKeys ((j, n) ∷ m) = All (λ (e : Text × ℕ). text_eq j e.0 ≡ false) m × DistinctKeys m

All-bump :
    (P : Text → Type 0) (k : Text) (m : Counter Text)
    → P k
    → All (λ (e : Text × ℕ). P (e.0)) m
    → All (λ (e : Text × ℕ). P (e.0)) (bump text_eq k m)
unfolding bump
All-bump P k [] p h = (p, tt)
All-bump P k ((j, n) ∷ m) p h = elim (Bool-cases (text_eq j k)) [
  | inl e ↦ rw (e, bump) h
  | inr e ↦ rw (e, bump) (h.0, All-bump P k m p h.1)
]

bump-DistinctKeys : (k : Text) (m : Counter Text) → DistinctKeys m → DistinctKeys (bump text_eq k m)
unfolding bump
bump-DistinctKeys k [] d = (tt, tt)
bump-DistinctKeys k ((j, n) ∷ m) d = elim (Bool-cases (text_eq j k)) [
  | inl e ↦ rw (e, bump) d
  | inr e ↦ rw (e, bump) (All-bump (λ i. text_eq j i ≡ false) k m e d.0, bump-DistinctKeys k m d.1)
]

text_eq_refl : (a : Text) → text_eq a a ≡ true
text_eq_refl a = (text_eq_iff a a).1 refl

count_of-entries :
    (m : Counter Text) → DistinctKeys m → All (λ (e : Text × ℕ). count_of text_eq (e.0) m ≡ e.1) m
unfolding count_of
count_of-entries [] d = tt
count_of-entries ((j, n) ∷ m) d =
    (rw (text_eq_refl j, count_of) refl, both m d.0 (count_of-entries m d.1))
  where
    both :
        (l : Counter Text)
        → All (λ (e : Text × ℕ). text_eq j e.0 ≡ false) l
        → All (λ (e : Text × ℕ). count_of text_eq (e.0) m ≡ e.1) l
        → All (λ (e : Text × ℕ). count_of text_eq (e.0) ((j, n) ∷ m) ≡ e.1) l
    both [] a b = tt
    both (e ∷ l) a b = (rw (a.0, count_of) (b.0), both l a.1 b.1)

-- A row that names a text, in one of its columns.
abbrev pub names : Text → Option Text → Bool
names c none = false
names c (some d) = text_eq d c

-- The counters of one loop, column by column.
abbrev country_of : {F : Type 0} → ServiceLogRow F → Option Text
country_of r = r.country

abbrev city_of : {F : Type 0} → ServiceLogRow F → Option Text
city_of r = r.city

abbrev pub version_of : {F : Type 0} → ServiceLogRow F → Option Text
version_of r = elim r.version [ none ↦ none | some v ↦ some (print_ℤ v) ]

abbrev bump_some : Option Text → Counter Text → Counter Text
bump_some none m = m
bump_some (some c) m = bump text_eq c m

bump_some-DistinctKeys :
    (o : Option Text) (m : Counter Text) → DistinctKeys m → DistinctKeys (bump_some o m)
bump_some-DistinctKeys none m d = d
bump_some-DistinctKeys (some c) m d = bump-DistinctKeys c m d

count_of-bump_some :
    (k : Text) (o : Option Text) (m : Counter Text)
    → count_of text_eq k (bump_some o m) ≡ count_of text_eq k m + bit (names k o)
count_of-bump_some k none m = omega arith
count_of-bump_some k (some c) m = count_of-bump text_eq text_eq_iff k c m ∙ ground arith

module _ {F : Type 0} where
  countries_row :
      (t : Tally) (r : ServiceLogRow F)
      → (count_row t r).countries ≡ bump_some r.country t.countries
  unfolding count_row count_country count_city count_version count_local push_query
  countries_row t r = ground arith

  cities_row :
      (t : Tally) (r : ServiceLogRow F) → (count_row t r).cities ≡ bump_some r.city t.cities
  unfolding count_row count_country count_city count_version count_local push_query
  cities_row t r = ground arith

  versions_row :
      (t : Tally) (r : ServiceLogRow F)
      → (count_row t r).versions ≡ bump_some (version_of r) t.versions
  unfolding count_row count_country count_city count_version count_local push_query
  versions_row t r = ground arith

  unknown_country_row :
      (t : Tally) (r : ServiceLogRow F)
      → (count_row t r).stats.unknown_country ≡ t.stats.unknown_country + bit (is_none r.country)
  unfolding count_row count_request count_country count_city count_version count_local push_query
  unknown_country_row t r = ground arith

  unknown_city_row :
      (t : Tally) (r : ServiceLogRow F)
      → (count_row t r).stats.unknown_city ≡ t.stats.unknown_city + bit (is_none r.city)
  unfolding count_row count_request count_country count_city count_version count_local push_query
  unknown_city_row t r = ground arith

  unknown_version_row :
      (t : Tally) (r : ServiceLogRow F)
      → (count_row t r).stats.unknown_version ≡ t.stats.unknown_version + bit (is_none r.version)
  unfolding count_row count_request count_country count_city count_version count_local push_query
  unknown_version_row t r = ground arith

  -- The keys of a counter of the loop are distinct, and its numbers are counts over the rows.
  record Counts (field : ServiceLogRow F → Option Text) (m : Counter Text)
      (rows : List (ServiceLogRow F)) : Type 0 where
    distinct : DistinctKeys m
    counts : (k : Text) → count_of text_eq k m ≡ count (λ r. names k (field r)) rows

  module _ (counter : Tally → Counter Text) (field : ServiceLogRow F → Option Text)
      (one : (t : Tally) (r : ServiceLogRow F)
        → counter (count_row t r) ≡ bump_some (field r) (counter t)) where
    DistinctKeys-count_rows :
        (t : Tally) (rs : List (ServiceLogRow F))
        → DistinctKeys (counter t)
        → DistinctKeys (counter (count_rows t rs))
    unfolding count_rows
    DistinctKeys-count_rows t [] d = d
    DistinctKeys-count_rows t (r ∷ rs) d =
        DistinctKeys-count_rows (count_row t r) rs
          (rw (one t r) (bump_some-DistinctKeys (field r) (counter t) d))

    count_rows-Counts :
        (rows : List (ServiceLogRow F))
        → counter start ≡ []
        → Counts field (counter (count_rows start rows)) rows
    unfolding count_of
    count_rows-Counts rows empty = record {
      distinct = DistinctKeys-count_rows start rows (rw empty tt);
      counts = λ k.
          count_rows-count (λ t. count_of text_eq k (counter t)) (λ r. names k (field r))
            (λ t r. ap (count_of text_eq k) (one t r) ∙ count_of-bump_some k (field r) (counter t))
            start rows
          ∙ ap (λ m. count_of text_eq k m + count (λ r. names k (field r)) rows) empty
          ∙ omega arith;
    }

  -- The entry of a label counts the rows that name it.
  abbrev pub CountsRows :
      (ServiceLogRow F → Option Text) → List (ServiceLogRow F) → TopEntry → Type 0
  CountsRows field rows e = e.count ≡ count (λ r. names e.label (field r)) rows

  take_top-CountsRows :
      (field : ServiceLogRow F → Option Text) (m : Counter Text) (rows : List (ServiceLogRow F))
      (n : ℕ)
      → Counts field m rows
      → All (CountsRows field rows) (take_top m n)
  unfolding take_top
  take_top-CountsRows field m rows n c = All-take (CountsRows field rows) n _ (
      All-sort ranks_before (CountsRows field rows) (map top_entry m)
        (entries m (count_of-entries m c.distinct)))
    where
      entries :
          (l : Counter Text)
          → All (λ (e : Text × ℕ). count_of text_eq (e.0) m ≡ e.1) l
          → All (CountsRows field rows) (map top_entry l)
      entries [] a = tt
      entries (e ∷ l) a = (sym a.0 ∙ c.counts e.0, entries l a.1)

  -- Each entry of the tops of countries, of cities and of versions counts exactly the rows that
  -- have its label in that column, and the unknown ones are counts of the rows with no value there.
  pub aggregate-labels :
      (rows : List (ServiceLogRow F)) (top_n : ℕ)
      → let s = aggregate rows top_n in
        All (CountsRows (λ r. r.country) rows) s.countries
        × All (CountsRows (λ r. r.city) rows) s.cities
        × All (CountsRows version_of rows) s.versions
        × (s.unknown_country ≡ count (λ r. is_none r.country) rows)
        × (s.unknown_city ≡ count (λ r. is_none r.city) rows)
        × (s.unknown_version ≡ count (λ r. is_none r.version) rows)
  unfolding aggregate
  aggregate-labels rows top_n =
      let t = count_rows start rows in
      (
        take_top-CountsRows (λ r. r.country) t.countries rows top_n
            (count_rows-Counts (λ t. t.countries) (λ r. r.country) countries_row rows refl),
        take_top-CountsRows (λ r. r.city) t.cities rows top_n
            (count_rows-Counts (λ t. t.cities) (λ r. r.city) cities_row rows refl),
        take_top-CountsRows version_of t.versions rows top_n
            (count_rows-Counts (λ t. t.versions) version_of versions_row rows refl),
        count_rows-count (λ t. t.stats.unknown_country) (λ r. is_none r.country) unknown_country_row
              start rows
            ∙ omega arith,
        count_rows-count (λ t. t.stats.unknown_city) (λ r. is_none r.city) unknown_city_row start
              rows
            ∙ omega arith,
        count_rows-count (λ t. t.stats.unknown_version) (λ r. is_none r.version) unknown_version_row
              start rows
            ∙ omega arith,
      )
