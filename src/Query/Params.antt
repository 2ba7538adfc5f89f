-- ===== src/Query/Params.antt =====
-- The named parameters of an SQL text: `find_param_name`, `param_names_in_order` and
-- `named_to_positional_with_casts` (src/query.rs). A position of the source is the text that
-- remains, and the fuel of a loop over a text is its length.
use bo_srv_rs.Common.{
  ℕ, zero, suc, ◌+◌, ◌&&◌, List, [], ◌∷◌, ◌++◌, Option, none, some, ◌==◌, if◌then◌else◌, length,
}
use bo_srv_rs.Common.Text.Decimal.{Text, codes, print_ℕ}
use bo_srv_rs.Common.Text.Order.{text_eq}
use bo_srv_rs.Common.Text.Split.{split_once}

-- The text behind a closing parenthesis starts with an `s`.
unfoldable pub close_param : Text → Text → Option (Text × Text)
close_param name [] = none
close_param name (c ∷ rest) = if c == b's' then some (rest, name) else none

unfoldable pub close_at : Option (Text × Text) → Option (Text × Text)
unfolding close_param
close_at none = none
close_at (some (name, behind)) = close_param name behind

-- The text behind the parameter that the text starts with, and its name.
unfoldable pub find_param_name : Text → Option (Text × Text)
unfolding close_at split_once
find_param_name [] = none
find_param_name (c ∷ []) = none
find_param_name (c ∷ d ∷ rest) =
    if c == b'%' && d == b'(' then close_at (split_once b')' rest) else none

unfoldable pub names_from : ℕ → Text → List Text
unfolding find_param_name
names_from zero sql = []
names_from (suc fuel) [] = []
names_from (suc fuel) (c ∷ cs) = elim (find_param_name (c ∷ cs)) [
  | none ↦ names_from fuel cs
  | some (rest, name) ↦ name ∷ names_from fuel rest
]

unfoldable pub param_names_in_order : Text → List Text
unfolding names_from
param_names_in_order sql = names_from (length sql) sql

-- A `HashMap` that is collected from pairs: of two values for one key, the later one stays.
unfoldable pub get_last {ℓ} : {A : Type ℓ} → Text → List (Text × A) → Option A
unfolding text_eq
get_last name [] = none
get_last name ((key, a) ∷ rest) = elim (get_last name rest) [
  | some b ↦ some b
  | none ↦ if text_eq key name then some a else none
]

-- The numbers given so far, a `HashMap` with one entry for each name.
abbrev pub Index : Type 0
Index = List (Text × ℕ)

unfoldable pub number_of : Text → Index → Option ℕ
unfolding text_eq
number_of name [] = none
number_of name ((key, n) ∷ rest) = if text_eq key name then some n else number_of name rest

-- `index.entry(name).or_insert(index.len() + 1)`.
unfoldable pub or_insert : Text → Index → Option ℕ → ℕ × Index
or_insert name index (some n) = (n, index)
or_insert name index none = (length index + 1, index ++ (name, length index + 1) ∷ [])

unfoldable pub cast_text : Option Text → Text
cast_text none = []
cast_text (some ty) = codes "::" ++ ty

unfoldable pub placeholder : List (Text × Text) → Text → ℕ → Text
unfolding print_ℕ cast_text get_last
placeholder casts name n = b'$' ∷ (print_ℕ n ++ cast_text (get_last name casts))

unfoldable pub positional_from : ℕ → List (Text × Text) → Index → Text → Text
unfolding find_param_name placeholder or_insert number_of
positional_from zero casts index sql = []
positional_from (suc fuel) casts index [] = []
positional_from (suc fuel) casts index (c ∷ cs) = elim (find_param_name (c ∷ cs)) [
  | none ↦ c ∷ positional_from fuel casts index cs
  | some (rest, name) ↦
      let (n, index') = or_insert name index (number_of name index) in
      placeholder casts name n ++ positional_from fuel casts index' rest
]

unfoldable pub named_to_positional_with_casts : Text → List (Text × Text) → Text
unfolding positional_from
named_to_positional_with_casts sql casts = positional_from (length sql) casts [] sql
