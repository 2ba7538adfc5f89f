-- ===== src/Common/Text/Fields.antt =====
-- `str::split` on one character and `str::lines`.
use bo_srv_rs.Common.{
  ℕ, Bool, false, ◌||◌, List, [], ◌∷◌, ◌++◌, ◌≡◌, refl, arith, ◌==◌, if◌then◌else◌, All,
}
use bo_srv_rs.Common.Text.Decimal.{Text}
use bo_srv_rs.Common.Text.Trim.{is_empty}

abbrev pub prepend : ℕ → List Text → List Text
prepend c [] = (c ∷ []) ∷ []
prepend c (f ∷ fs) = (c ∷ f) ∷ fs

unfoldable pub split : ℕ → Text → List Text
split sep [] = [] ∷ []
split sep (c ∷ cs) = let rest = split sep cs in if c == sep then [] ∷ rest else prepend c rest

-- `filter(|s| !s.is_empty())`.
unfoldable pub drop_empty : List Text → List Text
drop_empty [] = []
drop_empty (f ∷ fs) = if is_empty f then drop_empty fs else f ∷ drop_empty fs

abbrev pub Without : ℕ → Text → Type 0
Without sep = All (λ c. (c == sep) ≡ false)

abbrev pub strip_cr : Text → Text
strip_cr [] = []
strip_cr (c ∷ []) = if c == b'\r' then [] else c ∷ []
strip_cr (c ∷ d ∷ cs) = c ∷ strip_cr (d ∷ cs)

abbrev pub finish_lines : List Text → List Text
finish_lines [] = []
finish_lines (last ∷ []) = if is_empty last then [] else last ∷ []
finish_lines (l ∷ m ∷ ls) = strip_cr l ∷ finish_lines (m ∷ ls)

-- The pieces between line feeds, less one carriage return in front of each line feed; what
-- stands behind the last line feed is a line if it is not empty.
unfoldable pub lines : Text → List Text
unfolding split
lines t = finish_lines (split b'\n' t)

pub split_append :
    (sep : ℕ) (f rest : Text) → Without sep f → split sep (f ++ (sep ∷ rest)) ≡ f ∷ split sep rest
unfolding split
split_append sep [] rest h = ground arith
split_append sep (c ∷ cs) rest h = ground (arith, split_append sep cs rest h.1)

pub split_last : (sep : ℕ) (f : Text) → Without sep f → split sep f ≡ f ∷ []
unfolding split
split_last sep [] h = refl
split_last sep (c ∷ cs) h = ground (arith, split_last sep cs h.1)

-- A field: not empty, and without the separator.
pub record IsField (sep : ℕ) (f : Text) : Type 0 where
  pub filled : is_empty f ≡ false
  pub without : Without sep f

abbrev pub fields : ℕ → Text → List Text
fields sep t = drop_empty (split sep t)

pub fields_append :
    (sep : ℕ) (f rest : Text) → IsField sep f → fields sep (f ++ (sep ∷ rest)) ≡ f ∷ fields sep rest
unfolding drop_empty
fields_append sep f rest h =
    rw (split_append sep f rest h.without, drop_empty) (rw (h.filled, drop_empty) refl)

pub fields_sep : (sep : ℕ) (rest : Text) → fields sep (sep ∷ rest) ≡ fields sep rest
unfolding drop_empty split
fields_sep sep rest = ground arith

pub fields_last : (sep : ℕ) (f : Text) → IsField sep f → fields sep f ≡ f ∷ []
unfolding drop_empty
fields_last sep f h = rw (split_last sep f h.without, drop_empty) (rw (h.filled, drop_empty) refl)

-- The test of a text for a character decides `Without`.
unfoldable pub has : ℕ → Text → Bool
has sep [] = false
has sep (c ∷ cs) = c == sep || has sep cs

pub has-Without : (sep : ℕ) (t : Text) → has sep t ≡ false → Without sep t
unfolding has
has-Without sep [] h = tt
has-Without sep (c ∷ cs) h = (ground arith, has-Without sep cs (ground arith))
