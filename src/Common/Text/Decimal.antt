-- ===== src/Common/Text/Decimal.antt =====
-- Decimal numbers: `to_string` of `u64`, `usize` and `i64`, and `str::parse` into them.
use Prim.Native.Char.{code}
use Prim.Native.String.{String}
use bo_srv_rs.Common.{
  ◌≤◌, ℕ, zero, suc, ◌+◌, ◌-◌, ◌*◌, ◌/◌, ◌%◌, ◌^◌, ◌<◌, Bool, true, false, ◌&&◌, List, [], ◌∷◌,
  Option, none, some, ◌≡◌, refl, ◌∙◌, arith, ltb, leb, ◌==◌, if◌then◌else◌, All, length,
}
use bo_srv_rs.Common.Int.{ℤ, pos, negsuc}

abbrev pub Text : Type 0
Text = List ℕ

-- The code points of a literal.
abbrev pub codes : String → Text
codes String.[] = []
codes (String.◌∷◌ c s) = code c ∷ codes s

abbrev pub is_digit : ℕ → Bool
is_digit c = leb b'0' c && leb c b'9'

abbrev pub IsDigit : ℕ → Type 0
IsDigit c = is_digit c ≡ true

-- `fuel` is more than the number printed, and a number has fewer digits than that.
digits : ℕ → ℕ → Text → Text
digits zero n acc = acc
digits (suc fuel) n acc =
    let more = digits fuel (n / 10) ((b'0' + n % 10) ∷ acc) in
    if ltb n 10 then (b'0' + n) ∷ acc else more

unfoldable pub print_ℕ : ℕ → Text
unfolding digits
print_ℕ n = digits (n + 1) n []

unfoldable pub parse_digits : ℕ → Text → Option ℕ
parse_digits acc [] = some acc
parse_digits acc (c ∷ cs) = if is_digit c then parse_digits (acc * 10 + (c - b'0')) cs else none

-- The digits of an unsigned number, without a sign.
unfoldable pub parse_ℕ : Text → Option ℕ
unfolding parse_digits
parse_ℕ [] = none
parse_ℕ (c ∷ cs) = parse_digits 0 (c ∷ cs)

abbrev pub at_most : ℕ → Option ℕ → Option ℕ
at_most top none = none
at_most top (some n) = if leb n top then some n else none

-- `str::parse::<usize>` on a 64-bit machine: a plus sign is allowed.
unfoldable pub parse_usize : Text → Option ℕ
unfolding parse_ℕ
parse_usize [] = none
parse_usize (c ∷ cs) = at_most (2 ^ 64 - 1) (parse_ℕ (if c == b'+' then cs else c ∷ cs))

abbrev pub negate : ℕ → ℤ
negate zero = pos 0
negate (suc n) = negsuc n

abbrev pub signed : Bool → Option ℕ → Option ℤ
signed _ none = none
signed true (some n) = some (negate n)
signed false (some n) = some (pos n)

-- `str::parse::<i64>`.
unfoldable pub parse_i64 : Text → Option ℤ
unfolding parse_ℕ
parse_i64 [] = none
parse_i64 (c ∷ cs) =
    if c == b'-'
    then signed true (at_most (2 ^ 63) (parse_ℕ cs))
    else signed false (at_most (2 ^ 63 - 1) (parse_ℕ (if c == b'+' then cs else c ∷ cs)))

unfoldable pub print_ℤ : ℤ → Text
unfolding print_ℕ
print_ℤ (pos n) = print_ℕ n
print_ℤ (negsuc n) = b'-' ∷ print_ℕ (suc n)

abbrev pub IsI64 : ℤ → Type 0
IsI64 (pos n) = n < 2 ^ 63
IsI64 (negsuc n) = n < 2 ^ 63

digits-parse :
    (fuel n : ℕ) (acc : Text) → n < fuel → parse_digits 0 (digits fuel n acc) ≡ parse_digits n acc
unfolding digits parse_digits
digits-parse zero n acc h = absurd (omega arith)
digits-parse (suc fuel) n acc h = ground (arith, digits-parse fuel (n / 10) ((b'0' + n % 10) ∷ acc))

abbrev pub StartsWithDigit : Text → Type 0
StartsWithDigit [] = ⊥
StartsWithDigit (c ∷ _) = IsDigit c

digits-StartsWithDigit : (fuel n : ℕ) (acc : Text) → n < fuel → StartsWithDigit (digits fuel n acc)
unfolding digits
digits-StartsWithDigit zero n acc h = absurd (omega arith)
digits-StartsWithDigit (suc fuel) n acc h =
    ground (arith, digits-StartsWithDigit fuel (n / 10) ((b'0' + n % 10) ∷ acc))

digits-All : (fuel n : ℕ) (acc : Text) → All IsDigit acc → All IsDigit (digits fuel n acc)
unfolding digits
digits-All zero n acc h = h
digits-All (suc fuel) n acc h = ground (arith, digits-All fuel (n / 10) ((b'0' + n % 10) ∷ acc))

pub print_ℕ-StartsWithDigit : (n : ℕ) → StartsWithDigit (print_ℕ n)
unfolding print_ℕ
print_ℕ-StartsWithDigit n = digits-StartsWithDigit (n + 1) n [] (omega arith)

pub print_ℕ-All : (n : ℕ) → All IsDigit (print_ℕ n)
unfolding print_ℕ
print_ℕ-All n = digits-All (n + 1) n [] tt

parse_ℕ-cons : (t : Text) → StartsWithDigit t → parse_ℕ t ≡ parse_digits 0 t
unfolding parse_ℕ
parse_ℕ-cons [] h = absurd h
parse_ℕ-cons (c ∷ cs) h = refl

print_ℕ-parse_digits : (n : ℕ) → parse_digits 0 (print_ℕ n) ≡ some n
unfolding print_ℕ parse_digits
print_ℕ-parse_digits n = digits-parse (n + 1) n [] (omega arith)

pub parse_ℕ-print_ℕ : (n : ℕ) → parse_ℕ (print_ℕ n) ≡ some n
parse_ℕ-print_ℕ n = parse_ℕ-cons (print_ℕ n) (print_ℕ-StartsWithDigit n) ∙ print_ℕ-parse_digits n

-- A text that starts with a digit has no sign.
parse_usize_unsigned :
    (t : Text) → StartsWithDigit t → parse_usize t ≡ at_most (2 ^ 64 - 1) (parse_ℕ t)
unfolding parse_usize
parse_usize_unsigned [] h = absurd h
parse_usize_unsigned (c ∷ cs) h = ground arith

parse_i64_unsigned :
    (t : Text) → StartsWithDigit t → parse_i64 t ≡ signed false (at_most (2 ^ 63 - 1) (parse_ℕ t))
unfolding parse_i64
parse_i64_unsigned [] h = absurd h
parse_i64_unsigned (c ∷ cs) h = ground arith

pub parse_usize-print_ℕ : (n : ℕ) → n < 2 ^ 64 → parse_usize (print_ℕ n) ≡ some n
parse_usize-print_ℕ n h =
    rw (parse_usize_unsigned (print_ℕ n) (print_ℕ-StartsWithDigit n), parse_ℕ-print_ℕ n)
      (ground arith)

pub parse_i64-print_ℤ : (z : ℤ) → IsI64 z → parse_i64 (print_ℤ z) ≡ some z
unfolding print_ℤ
parse_i64-print_ℤ (pos n) h =
    rw (parse_i64_unsigned (print_ℕ n) (print_ℕ-StartsWithDigit n), parse_ℕ-print_ℕ n)
      (ground arith)
parse_i64-print_ℤ (negsuc n) h = unfold parse_i64 in rw (parse_ℕ-print_ℕ (suc n)) (ground arith)

abbrev pub ten : ℕ → ℕ
ten zero = 1
ten (suc k) = 10 * ten k

digits-length :
    (fuel n k : ℕ) (acc : Text)
    → n < fuel
    → n < ten (suc k)
    → length (digits fuel n acc) ≤ suc k + length acc
unfolding digits
digits-length zero n k acc h lt = absurd (omega arith)
digits-length (suc fuel) n zero acc h lt = ground arith
digits-length (suc fuel) n (suc k) acc h lt =
    ground (arith, digits-length fuel (n / 10) k ((b'0' + n % 10) ∷ acc))

-- A number has at most `k` digits if it is below the `k`-th power of ten.
pub length-print_ℕ : (n k : ℕ) → n < ten (suc k) → length (print_ℕ n) ≤ suc k
unfolding print_ℕ
length-print_ℕ n k lt = omega (arith, digits-length (n + 1) n k [] (omega arith) lt)
