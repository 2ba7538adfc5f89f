-- ===== src/Common/Text/Split.antt =====
-- `str::starts_with`, `str::rsplit_once` and the first piece of `str::split`.
use bo_srv_rs.Common.{
  ℕ, Bool, true, false, ◌&&◌, ◌||◌, [], ◌∷◌, ◌++◌, ◌≡◌, arith, Option, none, some, ◌==◌,
  if◌then◌else◌,
}
use bo_srv_rs.Common.Text.Decimal.{Text}
use bo_srv_rs.Common.Text.Fields.{Without}
use bo_srv_rs.Common.Text.Order.{text_eq}

unfoldable pub starts_with : Text → Text → Bool
starts_with [] t = true
starts_with (p ∷ ps) [] = false
starts_with (p ∷ ps) (c ∷ cs) = p == c && starts_with ps cs

-- The text in front of the first separator, all of it if there is none.
unfoldable pub first_piece : ℕ → Text → Text
first_piece sep [] = []
first_piece sep (c ∷ cs) = let rest = first_piece sep cs in if c == sep then [] else c ∷ rest

-- The parts on the two sides of the last separator.
unfoldable pub rsplit_once : ℕ → Text → Option (Text × Text)
rsplit_once sep [] = none
rsplit_once sep (c ∷ cs) = elim (rsplit_once sep cs) [
  | some (a, b) ↦ some (c ∷ a, b)
  | none ↦ if c == sep then some ([], cs) else none
]

-- The parts on the two sides of the first separator.
unfoldable pub split_once : ℕ → Text → Option (Text × Text)
split_once sep [] = none
split_once sep (c ∷ cs) = elim (split_once sep cs) [
  | some (a, b) ↦ if c == sep then some ([], cs) else some (c ∷ a, b)
  | none ↦ if c == sep then some ([], cs) else none
]

pub split_once-append :
    (sep : ℕ) (a b : Text) → Without sep a → split_once sep (a ++ (sep ∷ b)) ≡ some (a, b)
unfolding split_once
split_once-append sep [] b h = ground arith
split_once-append sep (c ∷ a) b h = ground (arith, split_once-append sep a b h.1)

-- One of the ends of a text is the suffix.
unfoldable pub ends_with : Text → Text → Bool
unfolding text_eq
ends_with suffix [] = text_eq suffix []
ends_with suffix (c ∷ cs) = text_eq suffix (c ∷ cs) || ends_with suffix cs
