-- ===== src/Common/Text/Trim.antt =====
-- `str::trim`, `str::trim_end_matches` and `char::is_whitespace`.
use bo_srv_rs.Common.{
  ℕ, Bool, true, false, ◌&&◌, ◌||◌, List, [], ◌∷◌, ◌≡◌, refl, arith, leb, ◌==◌, if◌then◌else◌, All,
}
use bo_srv_rs.Common.Text.Decimal.{Text}

-- The code points with the Unicode property White_Space.
unfoldable pub is_whitespace : ℕ → Bool
is_whitespace c =
    (leb 0x9 c && leb c 0xd)
    || c == 0x20
    || c == 0x85
    || c == 0xa0
    || c == 0x1680
    || (leb 0x2000 c && leb c 0x200a)
    || c == 0x2028
    || c == 0x2029
    || c == 0x202f
    || c == 0x205f
    || c == 0x3000

abbrev pub is_empty {ℓ} : {A : Type ℓ} → List A → Bool
is_empty [] = true
is_empty (_ ∷ _) = false

unfoldable pub trim_end_matches : (ℕ → Bool) → Text → Text
trim_end_matches p [] = []
trim_end_matches p (c ∷ cs) =
    let rest = trim_end_matches p cs in if is_empty rest && p c then [] else c ∷ rest

unfoldable pub trim_start_matches : (ℕ → Bool) → Text → Text
trim_start_matches p [] = []
trim_start_matches p (c ∷ cs) = let rest = trim_start_matches p cs in if p c then rest else c ∷ cs

unfoldable pub trim : Text → Text
unfolding trim_end_matches trim_start_matches is_whitespace
trim t = trim_end_matches is_whitespace (trim_start_matches is_whitespace t)

pub trim_end_matches_none :
    (p : ℕ → Bool) (t : Text) → All (λ c. p c ≡ false) t → trim_end_matches p t ≡ t
unfolding trim_end_matches
trim_end_matches_none p [] h = refl
trim_end_matches_none p (c ∷ cs) h = ground (arith, trim_end_matches_none p cs h.1)

abbrev pub StartsVisibly : Text → Type 0
StartsVisibly [] = ⊥
StartsVisibly (c ∷ _) = is_whitespace c ≡ false

-- A text that starts with a visible character is not blank.
pub trim_visible : (t : Text) → StartsVisibly t → is_empty (trim t) ≡ false
unfolding trim trim_end_matches trim_start_matches
trim_visible [] h = absurd h
trim_visible (c ∷ cs) h = ground arith

trim_start-visible :
    (t : Text) → All (λ c. is_whitespace c ≡ false) t → trim_start_matches is_whitespace t ≡ t
unfolding trim_start_matches
trim_start-visible [] h = refl
trim_start-visible (c ∷ cs) h = rw h.0 refl

trim_start_space :
    (t : Text) → trim_start_matches is_whitespace (b' ' ∷ t) ≡ trim_start_matches is_whitespace t
unfolding trim_start_matches is_whitespace
trim_start_space t = refl

-- A text without white space, behind a space.
pub trim_space : (t : Text) → All (λ c. is_whitespace c ≡ false) t → trim (b' ' ∷ t) ≡ t
unfolding trim
trim_space t h =
    rw (trim_start_space t, trim_start-visible t h) (trim_end_matches_none is_whitespace t h)
