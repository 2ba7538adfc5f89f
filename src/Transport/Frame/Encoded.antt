-- ===== src/Transport/Frame/Encoded.antt =====
-- The frames of `encode_frame` (src/transport.rs) are messages that `read_frame` accepts.
use bo_srv_rs.Common.{
  ◌+◌, ◌≤◌, ◌<◌, true, false, [], ◌∷◌, ◌++◌, ◌≡◌, refl, ◌∙◌, ap, arith, ◌==◌, length, length-append,
  All, All-append, All-imp, append_assoc, append_nil,
}
use bo_srv_rs.Common.Result.{ok}
use bo_srv_rs.Common.Text.Fields.{Without, split, lines, split_append, strip_cr}
use bo_srv_rs.Common.Text.Order.{text_eq}
use bo_srv_rs.Common.Text.Split.{ends_with}
use bo_srv_rs.Common.Text.Utf8.{Bytes, decode_utf8-ascii}
use bo_srv_rs.Transport.Headers.{parse_content_length, content_length_of}
use bo_srv_rs.Transport.Frame.Defs.{
  blank_line, content_length_header, max_header_bytes, max_body_bytes, encode_frame,
}
use bo_srv_rs.Transport.Frame.Header.{
  IsPlain, header-IsPlain, plain-Without_cr, plain-Without_lf, content_length_of-header,
  length-header,
}
use bo_srv_rs.Transport.Frame.Reader.{Message, IsMessage, Quiet, block_of, bytes_of}

ends_with-skip :
    (h s : Bytes) → Without b'\r' h → ends_with blank_line (h ++ s) ≡ ends_with blank_line s
unfolding ends_with text_eq
ends_with-skip [] s w = refl
ends_with-skip (c ∷ h) s w = ground (arith, ends_with-skip h s w.1)

ends_with-plain : (h : Bytes) → Without b'\r' h → ends_with blank_line h ≡ false
unfolding ends_with text_eq
ends_with-plain [] w = refl
ends_with-plain (c ∷ h) w = ground (arith, ends_with-plain h w.1)

Quiet-append : (acc h t : Bytes) → Quiet acc h → Quiet (acc ++ h) t → Quiet acc (h ++ t)
Quiet-append acc [] t q r = rw (append_nil acc) at r
Quiet-append acc (c ∷ h) t q r =
    (q.0, Quiet-append (acc ++ c ∷ []) h t q.1 (rw (append_assoc acc (c ∷ []) h) r))

Quiet-plain : (acc h : Bytes) → Without b'\r' acc → Without b'\r' h → Quiet acc h
Quiet-plain acc [] v w = tt
Quiet-plain acc (c ∷ h) v w =
    let longer = All-append (λ b. (b == b'\r') ≡ false) acc (c ∷ []) v (w.0, tt) in
    (ends_with-plain (acc ++ c ∷ []) longer, Quiet-plain (acc ++ c ∷ []) h longer w.1)

strip_cr-append : (h : Bytes) → strip_cr (h ++ b'\r' ∷ []) ≡ h
strip_cr-append [] = refl
strip_cr-append (c ∷ []) = refl
strip_cr-append (c ∷ d ∷ h) = ap (◌∷◌ c) (strip_cr-append (d ∷ h))

lines-block : (h : Bytes) → Without b'\n' h → lines (h ++ blank_line) ≡ h ∷ [] ∷ []
unfolding lines
lines-block h w = rw (← append_assoc h (b'\r' ∷ []) (b'\n' ∷ b'\r' ∷ b'\n' ∷ [])) (
    rw
      (split_append b'\n' (h ++ b'\r' ∷ []) (b'\r' ∷ b'\n' ∷ [])
        (All-append (λ b. (b == b'\n') ≡ false) h (b'\r' ∷ []) w (refl, tt)))
      (unfold split in rw (strip_cr-append h) refl))

closing : ends_with blank_line blank_line ≡ true
unfolding ends_with text_eq
closing = refl

-- A single header line of plain characters and a body make a message.
module _ (h body : Bytes) (plain : All IsPlain h) where
  abbrev pub framed : Message
  framed = record {
    front = h ++ (b'\r' ∷ b'\n' ∷ b'\r' ∷ []);
    headers = h ++ blank_line;
    body = body;
  }

  framed-Quiet : Quiet [] (h ++ (b'\r' ∷ b'\n' ∷ b'\r' ∷ []))
  unfolding ends_with text_eq
  framed-Quiet =
      let w = plain-Without_cr h plain in
      Quiet-append [] h (b'\r' ∷ b'\n' ∷ b'\r' ∷ []) (Quiet-plain [] h tt w) (
        ends_with-skip h (b'\r' ∷ []) w,
        (
          rw (append_assoc h (b'\r' ∷ []) (b'\n' ∷ [])) (ends_with-skip h (b'\r' ∷ b'\n' ∷ []) w),
          (
            rw (append_assoc h (b'\r' ∷ []) (b'\n' ∷ [])) (
                rw (append_assoc h (b'\r' ∷ b'\n' ∷ []) (b'\r' ∷ []))
                  (ends_with-skip h (b'\r' ∷ b'\n' ∷ b'\r' ∷ []) w)),
            tt,
          ),
        ),
      )

  block-framed : block_of framed ≡ h ++ blank_line
  block-framed = append_assoc h (b'\r' ∷ b'\n' ∷ b'\r' ∷ []) (b'\n' ∷ [])

  framed-IsMessage :
      length h + 4 ≤ max_header_bytes
      → content_length_of (h ∷ [] ∷ []) ≡ ok (length body)
      → length body ≤ max_body_bytes
      → IsMessage framed
  unfolding parse_content_length
  framed-IsMessage short declared fits = record {
    quiet = framed-Quiet;
    ends = rw block-framed (ends_with-skip h blank_line (plain-Without_cr h plain) ∙ closing);
    short = rw block-framed (omega (arith, short, length-append h blank_line));
    text = rw block-framed (
        decode_utf8-ascii (h ++ blank_line) (
          All-append (λ c. c < 128) h blank_line
            (All-imp IsPlain (λ c. c < 128) (λ c p. p.0) h plain) (ground arith)));
    declared = rw (lines-block h (plain-Without_lf h plain)) declared;
    fits = fits;
  }

-- The message that `encode_frame` makes of a body.
abbrev pub message_of : Bytes → Message
message_of body = framed (content_length_header (length body)) body (header-IsPlain (length body))

pub message_of-IsMessage :
    (body : Bytes) → length body ≤ max_body_bytes → IsMessage (message_of body)
message_of-IsMessage body le =
    let n = length body in
    framed-IsMessage (content_length_header n) body (header-IsPlain n)
      (omega (arith, length-header n le)) (content_length_of-header n ([] ∷ []) (omega arith)) le

pub bytes-message_of : (body : Bytes) → bytes_of (message_of body) ≡ encode_frame body
unfolding encode_frame
bytes-message_of body =
    append_assoc (content_length_header (length body)) (b'\r' ∷ b'\n' ∷ b'\r' ∷ []) (b'\n' ∷ body)
