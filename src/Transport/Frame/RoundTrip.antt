-- ===== src/Transport/Frame/RoundTrip.antt =====
-- `decode_frame` on what `encode_frame` writes (src/transport.rs).
use bo_srv_rs.Common.{
  ℕ, suc, ◌+◌, ◌≤◌, ◌<◌, false, [], ◌∷◌, ◌++◌, none, some, ◌≡◌, refl, ◌∙◌, ap, arith, ltb, length,
  length-append, take, drop, take_append, All, append_assoc,
}
use bo_srv_rs.Common.Result.{ok}
use bo_srv_rs.Common.Text.Decimal.{Text}
use bo_srv_rs.Common.Text.Fields.{Without, lines, split_last}
use bo_srv_rs.Common.Text.Split.{starts_with}
use bo_srv_rs.Common.Text.Trim.{is_empty}
use bo_srv_rs.Common.Text.Utf8.{Bytes}
use bo_srv_rs.Transport.Headers.{parse_content_length}
use bo_srv_rs.Transport.Frame.Defs.{
  blank_line, content_length_header, position_of, find_headers_end, decode_body, decode_sized,
  decode_headers, decode_frame, encode_frame, max_header_bytes, max_body_bytes,
}
use bo_srv_rs.Transport.Frame.Header.{
  IsPlain, header-IsPlain, plain-Without_cr, plain-Without_lf, decode_utf8-plain,
  content_length_of-header, length-header,
}

position_of-append :
    (h rest : Bytes)
    → Without b'\r' h
    → position_of blank_line (h ++ (blank_line ++ rest)) ≡ some (length h)
unfolding position_of starts_with
position_of-append [] rest w = refl
position_of-append (c ∷ h) rest w = ground (arith, position_of-append h rest w.1)

pub find_headers_end-append :
    (h rest : Bytes)
    → Without b'\r' h
    → find_headers_end (h ++ (blank_line ++ rest)) ≡ some (length h)
unfolding find_headers_end
find_headers_end-append h rest w =
    ground (arith, position_of-append h rest w, length-append h (blank_line ++ rest))

lines-one : (h : Text) → Without b'\n' h → is_empty h ≡ false → lines h ≡ h ∷ []
unfolding lines
lines-one h w e = rw (split_last b'\n' h w, e) refl

pub parse_content_length-header :
    (n : ℕ) → n ≤ max_body_bytes → parse_content_length (content_length_header n) ≡ ok n
unfolding parse_content_length
parse_content_length-header n le =
    rw
      (lines-one (content_length_header n)
        (plain-Without_lf (content_length_header n) (header-IsPlain n)) refl)
      (content_length_of-header n [] (omega arith))

drop_headers : (h tail : Bytes) → drop (length h + 4) (h ++ (blank_line ++ tail)) ≡ tail
drop_headers [] tail = refl
drop_headers (c ∷ h) tail =
    let shift : suc (length h) + 4 ≡ suc (length h + 4) = omega arith in
    ap (λ k. drop k (c ∷ (h ++ (blank_line ++ tail)))) shift ∙ drop_headers h tail

pub length_framed :
    (h tail : Bytes) → length (h ++ (blank_line ++ tail)) ≡ length h + 4 + length tail
length_framed h tail = length-append h (blank_line ++ tail) ∙ omega arith

-- A header line of plain characters that declares `n` bytes.
pub record Declares (h : Bytes) (n : ℕ) : Type 0 where
  pub plain : All IsPlain h
  pub short : length h ≤ max_header_bytes
  pub parsed : parse_content_length h ≡ ok n
  pub fits : n ≤ max_body_bytes

module _ (h tail : Bytes) (n : ℕ) (d : Declares h n) where
  decode_frame-header :
      decode_frame (h ++ (blank_line ++ tail))
      ≡ decode_body (h ++ (blank_line ++ tail)) (length h) n
  unfolding decode_frame decode_headers decode_sized
  decode_frame-header =
      let short : ltb max_header_bytes (length h) ≡ false = ground (arith, d.short) in
      rw (find_headers_end-append h tail (plain-Without_cr h d.plain))
        (rw (short, take_append h (blank_line ++ tail), decode_utf8-plain h d.plain, d.parsed) refl)

  pub decode_frame_complete :
      n ≤ length tail → decode_frame (h ++ (blank_line ++ tail)) ≡ some (ok (take n tail))
  unfolding decode_body
  decode_frame_complete le =
      decode_frame-header ∙ rw (drop_headers h tail) (ground (arith, d.fits, length_framed h tail))

  pub decode_frame_incomplete : length tail < n → decode_frame (h ++ (blank_line ++ tail)) ≡ none
  unfolding decode_body
  decode_frame_incomplete lt = decode_frame-header ∙ ground (arith, d.fits, length_framed h tail)

pub header-Declares : (n : ℕ) → n ≤ max_body_bytes → Declares (content_length_header n) n
header-Declares n le = record {
  plain = header-IsPlain n;
  short = omega (arith, length-header n le);
  parsed = parse_content_length-header n le;
  fits = le;
}

-- `decode_frame` of an encoded body gives the body back, whatever bytes follow the frame, for
-- a body that is not larger than the limit of 256 MiB.
pub decode_frame-encode_frame :
    (body rest : Bytes)
    → length body ≤ max_body_bytes
    → decode_frame (encode_frame body ++ rest) ≡ some (ok body)
unfolding encode_frame
decode_frame-encode_frame body rest le =
    let n = length body in
    let h = content_length_header n in
    rw (append_assoc h (blank_line ++ body) rest) (
      decode_frame_complete h (body ++ rest) n (header-Declares n le)
        (omega (arith, length-append body rest))
      ∙ rw (take_append body rest) refl)
