-- ===== src/Common/Text/Order.antt =====
-- `==` and `cmp` of texts; the order of code points is the order of the UTF-8 bytes.
use bo_srv_rs.Common.{
  List, Bool, true, false, ◌&&◌, ◌||◌, [], ◌∷◌, ◌≡◌, ◌↔◌, refl, arith, ltb, ◌==◌, if◌then◌else◌,
}
use bo_srv_rs.Common.Text.Decimal.{Text}

unfoldable pub text_eq : Text → Text → Bool
text_eq [] [] = true
text_eq (x ∷ xs) (y ∷ ys) = x == y && text_eq xs ys
text_eq _ _ = false

-- A text is among those of a list.
abbrev pub contains_text : List Text → Text → Bool
contains_text [] t = false
contains_text (x ∷ xs) t = text_eq x t || contains_text xs t

unfoldable pub text_lt : Text → Text → Bool
text_lt [] [] = false
text_lt [] (y ∷ ys) = true
text_lt (x ∷ xs) [] = false
text_lt (x ∷ xs) (y ∷ ys) =
    let later = text_lt xs ys in if ltb x y then true else if ltb y x then false else later

pub text_eq_iff : (a b : Text) → (text_eq a b ≡ true) ↔ (a ≡ b)
unfolding text_eq
text_eq_iff (x ∷ a) (y ∷ b) = ground (arith, text_eq_iff a b)
text_eq_iff _ _ = ground arith

pub text_lt_irrefl : (a : Text) → text_lt a a ≡ false
unfolding text_lt
text_lt_irrefl [] = refl
text_lt_irrefl (x ∷ a) = ground (arith, text_lt_irrefl a)

pub text_lt_trans : (a b c : Text) → text_lt a b ≡ true → text_lt b c ≡ true → text_lt a c ≡ true
unfolding text_lt
text_lt_trans (x ∷ a) (y ∷ b) (z ∷ c) h k = ground (arith, text_lt_trans a b c)
text_lt_trans _ _ _ h k = ground arith

-- Two texts of which neither is below the other are equal.
pub text_lt_total : (a b : Text) → text_lt a b ≡ false → text_lt b a ≡ false → a ≡ b
unfolding text_lt
text_lt_total (x ∷ a) (y ∷ b) h k = ground (arith, text_lt_total a b)
text_lt_total _ _ h k = ground arith
