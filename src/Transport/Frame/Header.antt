-- ===== src/Transport/Frame/Header.antt =====
-- The header line that `encode_frame` writes (src/transport.rs), as the readers see it.
use bo_srv_rs.Common.{
  ℕ, ◌≤◌, ◌<◌, ◌^◌, true, false, List, ◌∷◌, some, ◌≡◌, refl, arith, ◌==◌, length, All, All-append,
  All-imp,
}
use bo_srv_rs.Common.Result.{ok}
use bo_srv_rs.Common.Text.Case.{eq_ignore_ascii_case}
use bo_srv_rs.Common.Text.Decimal.{
  Text, codes, IsDigit, print_ℕ, print_ℕ-All, parse_usize-print_ℕ, length-print_ℕ,
}
use bo_srv_rs.Common.Text.Fields.{Without}
use bo_srv_rs.Common.Text.Split.{split_once, split_once-append}
use bo_srv_rs.Common.Text.Trim.{is_whitespace, trim, trim_space}
use bo_srv_rs.Common.Text.Utf8.{decode_utf8, decode_utf8-ascii}
use bo_srv_rs.Transport.Headers.{content_length_of}
use bo_srv_rs.Transport.Frame.Defs.{content_length_header, max_body_bytes}

-- A character of a header line: ASCII, and no line end.
abbrev pub IsPlain : ℕ → Type 0
IsPlain c = (c < 128) × ((c == b'\r') ≡ false) × ((c == b'\n') ≡ false)

digit-IsPlain : (c : ℕ) → IsDigit c → IsPlain c
digit-IsPlain c h = ground arith

pub header-IsPlain : (n : ℕ) → All IsPlain (content_length_header n)
header-IsPlain n =
    All-append IsPlain (codes "Content-Length: ") (print_ℕ n) (ground arith)
      (All-imp IsDigit IsPlain digit-IsPlain (print_ℕ n) (print_ℕ-All n))

pub plain-Without_cr : (t : Text) → All IsPlain t → Without b'\r' t
plain-Without_cr t h = All-imp IsPlain (λ c. (c == b'\r') ≡ false) (λ c p. p.1) t h

pub plain-Without_lf : (t : Text) → All IsPlain t → Without b'\n' t
plain-Without_lf t h = All-imp IsPlain (λ c. (c == b'\n') ≡ false) (λ c p. p.2) t h

pub decode_utf8-plain : (t : Text) → All IsPlain t → decode_utf8 t ≡ some t
decode_utf8-plain t h = decode_utf8-ascii t (All-imp IsPlain (λ c. c < 128) (λ c p. p.0) t h)

digit-visible : (c : ℕ) → IsDigit c → is_whitespace c ≡ false
unfolding is_whitespace
digit-visible c h = ground arith

header_parts :
    (n : ℕ)
    → split_once b':' (content_length_header n) ≡ some (codes "Content-Length", b' ' ∷ print_ℕ n)
header_parts n = split_once-append b':' (codes "Content-Length") (b' ' ∷ print_ℕ n) (ground arith)

name_matches : eq_ignore_ascii_case (trim (codes "Content-Length")) (codes "content-length") ≡ true
unfolding eq_ignore_ascii_case trim
name_matches = refl

trim_number : (n : ℕ) → trim (b' ' ∷ print_ℕ n) ≡ print_ℕ n
trim_number n =
    trim_space (print_ℕ n)
      (All-imp IsDigit (λ c. is_whitespace c ≡ false) digit-visible (print_ℕ n) (print_ℕ-All n))

-- The header line gives back its number, whatever lines follow.
pub content_length_of-header :
    (n : ℕ) (rest : List Text)
    → n < 2 ^ 64
    → content_length_of (content_length_header n ∷ rest) ≡ ok n
unfolding content_length_of
content_length_of-header n rest lt =
    rw (header_parts n, content_length_of)
      (rw (name_matches, trim_number n, parse_usize-print_ℕ n lt) refl)

pub length-header : (n : ℕ) → n ≤ max_body_bytes → length (content_length_header n) ≤ 26
length-header n h = omega (arith, length-print_ℕ n 9 (omega arith))
