-- ===== src/ServiceLog/RoundTrip/Cells.antt =====
-- One column of a row: what is printed is a field, and the parser of the column reads it back.
use bo_srv_rs.Common.{
  ℕ, zero, suc, false, [], ◌∷◌, ◌++◌, Option, none, some, ◌≡◌, refl, ◌∙◌, arith, All, replicate,
}
use bo_srv_rs.Common.Int.{ℤ, pos, negsuc}
use bo_srv_rs.Common.Text.Decimal.{
  Text, codes, IsDigit, StartsWithDigit, print_ℕ, print_ℕ-All, print_ℕ-StartsWithDigit, print_ℤ,
  IsI64, parse_i64-print_ℤ,
}
use bo_srv_rs.Common.Text.Fields.{IsField, Without, fields, fields_sep}
use bo_srv_rs.Common.Text.Order.{text_eq}
use bo_srv_rs.Common.Text.Trim.{is_empty}
use bo_srv_rs.ServiceLog.Row.{or_dash, print_or}
use bo_srv_rs.Stats.Row.{dash_to_none, dash_to_int, parse_version, is_line_end}

-- A number of the log is an `i64`.
abbrev pub FitsInt : Option ℤ → Type 0
FitsInt none = Unit
FitsInt (some z) = IsI64 z

-- A text of the log is not empty, has no tab and is not the placeholder.
abbrev pub FitsText : Option Text → Type 0
FitsText none = Unit
FitsText (some t) = IsField b'\t' t × (text_eq t (codes "-") ≡ false)

Without-digits : (t : Text) → All IsDigit t → Without b'\t' t
Without-digits [] h = tt
Without-digits (c ∷ cs) h = (ground arith, Without-digits cs h.1)

line_end-digits : (t : Text) → All IsDigit t → All (λ c. is_line_end c ≡ false) t
line_end-digits [] h = tt
line_end-digits (c ∷ cs) h = (ground arith, line_end-digits cs h.1)

is_empty-digit : (t : Text) → StartsWithDigit t → is_empty t ≡ false
is_empty-digit [] h = absurd h
is_empty-digit (c ∷ cs) h = refl

text_eq-digit :
    (t u : Text) (c : ℕ)
    → StartsWithDigit t
    → (leb_digit : IsDigit c → ⊥) → text_eq t (c ∷ u) ≡ false
unfolding text_eq
text_eq-digit [] u c h n = refl
text_eq-digit (d ∷ t) u c h n = ground (arith, n)

text_eq_longer : (c d : ℕ) (t : Text) → text_eq (c ∷ d ∷ t) (codes "-") ≡ false
unfolding text_eq
text_eq_longer c d t = ground arith

pub print_ℤ-IsField : (z : ℤ) → IsField b'\t' (print_ℤ z)
unfolding print_ℤ
print_ℤ-IsField (pos n) = record {
  filled = is_empty-digit (print_ℕ n) (print_ℕ-StartsWithDigit n);
  without = Without-digits (print_ℕ n) (print_ℕ-All n);
}
print_ℤ-IsField (negsuc n) = record {
  filled = refl;
  without = (refl, Without-digits (print_ℕ (suc n)) (print_ℕ-All (suc n)));
}

print_ℤ_not_dash : (z : ℤ) → text_eq (print_ℤ z) (codes "-") ≡ false
unfolding print_ℤ text_eq
print_ℤ_not_dash (pos n) = text_eq-digit (print_ℕ n) [] b'-' (print_ℕ-StartsWithDigit n) (λ h. cc)
print_ℤ_not_dash (negsuc n) =
    is_empty-eq (print_ℕ (suc n))
      (is_empty-digit (print_ℕ (suc n)) (print_ℕ-StartsWithDigit (suc n)))
  where
    is_empty-eq : (t : Text) → is_empty t ≡ false → text_eq t [] ≡ false
    is_empty-eq [] h = cc
    is_empty-eq (c ∷ cs) h = refl

print_ℤ_not_none : (z : ℤ) → text_eq (print_ℤ z) (codes "None") ≡ false
unfolding print_ℤ text_eq
print_ℤ_not_none (pos n) =
    text_eq-digit (print_ℕ n) (codes "one") b'N' (print_ℕ-StartsWithDigit n) (λ h. cc)
print_ℤ_not_none (negsuc n) = refl

pub print_or-IsField :
    (other : Text) (o : Option ℤ) → IsField b'\t' other → IsField b'\t' (print_or other o)
print_or-IsField other none h = h
print_or-IsField other (some z) h = print_ℤ-IsField z

pub or_dash-IsField : (o : Option Text) → FitsText o → IsField b'\t' (or_dash o)
or_dash-IsField none h = record { filled = refl; without = (refl, tt) }
or_dash-IsField (some t) h = h.0

pub dash_to_int-print_or : (o : Option ℤ) → FitsInt o → dash_to_int (print_or (codes "-") o) ≡ o
unfolding dash_to_int text_eq
dash_to_int-print_or none h = refl
dash_to_int-print_or (some z) h = rw (print_ℤ_not_dash z) (parse_i64-print_ℤ z h)

pub dash_to_int_dash : dash_to_int (codes "-") ≡ none
unfolding dash_to_int text_eq
dash_to_int_dash = refl

pub parse_version-print_or :
    (o : Option ℤ) → FitsInt o → parse_version (print_or (codes "None") o) ≡ o
unfolding parse_version text_eq
parse_version-print_or none h = refl
parse_version-print_or (some z) h =
    rw (print_ℤ_not_dash z, print_ℤ_not_none z) (parse_i64-print_ℤ z h)

pub dash_to_none-or_dash : (o : Option Text) → FitsText o → dash_to_none (or_dash o) ≡ o
unfolding dash_to_none text_eq
dash_to_none-or_dash none h = refl
dash_to_none-or_dash (some t) h = rw h.1 refl

-- The tabs behind the city.
pub fields_tabs :
    (n : ℕ) (rest : Text) → fields b'\t' (replicate n b'\t' ++ rest) ≡ fields b'\t' rest
fields_tabs zero rest = refl
fields_tabs (suc n) rest = fields_sep b'\t' (replicate n b'\t' ++ rest) ∙ fields_tabs n rest
