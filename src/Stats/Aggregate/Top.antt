-- ===== src/Stats/Aggregate/Top.antt =====
-- The top lists and the distribution (src/stats/aggregate.rs): `take_top` and
-- `take_distribution` against the counters, and the counters against the rows.
use mathlib.Core.List.Perm
use mathlib.Core.List.{Perm}
use bo_srv_rs.Common.{
  ℕ, Bool, false, List, [], ◌∷◌, ◌<◌, ◌⊎◌, All-imp, ◌++◌, map, ◌≡◌, ap, arith, take, drop, length,
  min, All, length-take, length-map, length-perm, take-append-drop,
}
use bo_srv_rs.Common.Int.{ltb_ℤ}
use bo_srv_rs.Common.Text.Decimal.{Text}
use bo_srv_rs.Common.Text.Order.{text_lt, text_lt_irrefl, text_lt_trans, text_lt_total}
use bo_srv_rs.Stats.Counter.{Counter}
use bo_srv_rs.Common.Sort.{
  sort, IsOrder-IsWeakOrder, IsOrder, IsSorted, sort-perm, sort-IsSorted, sort_of_perm,
  take-drop-sorted, take-IsSorted,
}
use bo_srv_rs.Stats.Aggregate.Types.{TopEntry, DataAreaBucket}
use bo_srv_rs.Stats.Aggregate.Defs.{top_entry, ranks_before, take_top}

ranks_before-IsOrder : IsOrder ranks_before
ranks_before-IsOrder = record {
  irrefl = λ a. ground (arith, text_lt_irrefl a.label);
  trans = λ a b c h k. ground (arith, text_lt_trans a.label b.label c.label);
  total = λ a b h k. ground (arith, text_lt_total a.label b.label);
}

TopEntry-set : IsSet TopEntry
TopEntry-set = hlevel

-- The top list of a counter does not depend on the order in which its map is walked.
pub take_top_of_perm : (c d : Counter Text) (n : ℕ) → Perm c d → take_top c n ≡ take_top d n
unfolding take_top
take_top_of_perm c d n p = ap (take n) (
    sort_of_perm ranks_before ranks_before-IsOrder TopEntry-set (map top_entry c) (map top_entry d)
      (Perm.map top_entry p))

-- An entry may stand above another one: its count is greater, or the counts are the same and the
-- label of the other is not the smaller one.
abbrev pub Above : TopEntry → TopEntry → Type 0
Above a b = (b.count < a.count) ⊎ ((b.count ≡ a.count) × (text_lt b.label a.label ≡ false))

-- Each entry may stand above all those behind it.
abbrev pub IsRanked : List TopEntry → Type 0
IsRanked [] = Unit
IsRanked (a ∷ l) = All (Above a) l × IsRanked l

ranks_before-Above : (a b : TopEntry) → ranks_before b a ≡ false → Above a b
ranks_before-Above a b h = ground arith

All-Above :
    (a : TopEntry) (l : List TopEntry) → All (λ b. ranks_before b a ≡ false) l → All (Above a) l
All-Above a l h = All-imp (λ b. ranks_before b a ≡ false) (Above a) (ranks_before-Above a) l h

IsSorted-IsRanked : (l : List TopEntry) → IsSorted ranks_before l → IsRanked l
IsSorted-IsRanked [] h = tt
IsSorted-IsRanked (a ∷ l) h = (All-Above a l h.0, IsSorted-IsRanked l h.1)

-- The top list and the entries that it leaves out are together the entries of the counter. The
-- list is ranked by descending count, entries with the same count by ascending label; it has `n`
-- entries, or all of them if there are fewer; and against each entry of the list, an entry left
-- out has a smaller count, or the same count and a label that is not smaller.
pub take_top_best :
    (c : Counter Text) (n : ℕ)
    → (rest : List TopEntry) × Perm (take_top c n ++ rest) (map top_entry c)
      × IsRanked (take_top c n)
      × (length (take_top c n) ≡ min n (length c))
      × All (λ a. All (Above a) rest) (take_top c n)
unfolding take_top
take_top_best c n =
    let es = map top_entry c in
    let l = sort ranks_before es in
    let s = sort-IsSorted ranks_before (IsOrder-IsWeakOrder ranks_before ranks_before-IsOrder) es in
    let p = sort-perm ranks_before es in
    (
      drop n l,
      rw (take-append-drop n l) p,
      IsSorted-IsRanked (take n l) (take-IsSorted ranks_before n l s),
      omega (arith, length-take n l, length-perm l es p, length-map top_entry c),
      All-imp (λ a. All (λ b. ranks_before b a ≡ false) (drop n l)) (λ a. All (Above a) (drop n l))
          (λ a. All-Above a (drop n l)) (take n l) (take-drop-sorted ranks_before n l s),
    )

by_area : DataAreaBucket → DataAreaBucket → Bool
by_area a b = ltb_ℤ a.data_area b.data_area
