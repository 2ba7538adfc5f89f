-- ===== src/Transport/Frame/Reader.antt =====
-- `read_frame` (src/transport.rs): what it takes from the stream, and how far it reads.
use bo_srv_rs.Common.{
  ℕ, zero, suc, ◌≤◌, ◌<◌, Bool, true, false, not, ◌&&◌, [], ◌∷◌, ◌++◌, Option, none, some, ◌≡◌,
  refl, arith, ltb, length, length-append, drop, take_append, drop_append, append_assoc,
}
use bo_srv_rs.Common.Result.{Result, ok, err}
use bo_srv_rs.Common.Text.Decimal.{Text}
use bo_srv_rs.Common.Text.Split.{ends_with}
use bo_srv_rs.Common.Text.Utf8.{Bytes, decode_utf8}
use bo_srv_rs.Transport.Headers.{LengthError, parse_content_length}
use bo_srv_rs.Transport.Frame.Defs.{
  blank_line, max_header_bytes, max_body_bytes, FrameError, HeaderBlock, Frame, read_headers,
  read_body, read_sized, read_text, read_block, read_frame,
}

-- Reading on from `acc`, no blank line ends within `t`.
abbrev pub Quiet : Bytes → Bytes → Type 0
Quiet acc [] = Unit
Quiet acc (c ∷ t) = (ends_with blank_line (acc ++ c ∷ []) ≡ false) × Quiet (acc ++ c ∷ []) t

-- The test for it.
unfoldable pub is_quiet : Bytes → Bytes → Bool
is_quiet acc [] = true
is_quiet acc (c ∷ t) = not (ends_with blank_line (acc ++ c ∷ [])) && is_quiet (acc ++ c ∷ []) t

pub is_quiet-Quiet : (acc t : Bytes) → is_quiet acc t ≡ true → Quiet acc t
unfolding is_quiet
is_quiet-Quiet acc [] h = tt
is_quiet-Quiet acc (c ∷ t) h =
    (ground (arith, h), is_quiet-Quiet (acc ++ c ∷ []) t (ground (arith, h)))

read_headers-Quiet :
    (acc t rest : Bytes)
    → Quiet acc t
    → ends_with blank_line (acc ++ (t ++ b'\n' ∷ [])) ≡ true
    → length (acc ++ (t ++ b'\n' ∷ [])) ≤ max_header_bytes
    → read_headers acc (t ++ (b'\n' ∷ rest))
      ≡ ok (some (record { block = acc ++ (t ++ b'\n' ∷ []); behind = rest }))
unfolding read_headers
read_headers-Quiet acc [] rest q e le =
    let small : ltb max_header_bytes (length (acc ++ b'\n' ∷ [])) ≡ false = ground (arith, le) in
    rw (small, e) refl
read_headers-Quiet acc (c ∷ t) rest q e le =
    let longer = append_assoc acc (c ∷ []) (t ++ b'\n' ∷ []) in
    let small : ltb max_header_bytes (length (acc ++ c ∷ [])) ≡ false =
      ground (arith, le, length-append acc (c ∷ (t ++ b'\n' ∷ [])), length-append acc (c ∷ [])) in
    rw (small, q.0, ← longer)
      (read_headers-Quiet (acc ++ c ∷ []) t rest q.1 (rw longer e) (rw longer le))

-- A message of a peer: its header block, less the last line feed, and its body.
pub record Message : Type 0 where
  pub front : Bytes
  pub headers : Text
  pub body : Bytes

abbrev pub block_of : Message → Bytes
block_of m = m.front ++ b'\n' ∷ []

abbrev pub bytes_of : Message → Bytes
bytes_of m = m.front ++ (b'\n' ∷ m.body)

-- The first blank line ends the header block, the block is short enough and UTF-8 of the headers,
-- and these declare the length of the body, which is within the limit.
pub record IsMessage (m : Message) : Type 0 where
  pub quiet : Quiet [] m.front
  pub ends : ends_with blank_line (block_of m) ≡ true
  pub short : length (block_of m) ≤ max_header_bytes
  pub text : decode_utf8 (block_of m) ≡ some m.headers
  pub declared : parse_content_length m.headers ≡ ok (length m.body)
  pub fits : length m.body ≤ max_body_bytes

pub read_frame-message :
    (m : Message) (rest : Bytes)
    → IsMessage m
    → read_frame (bytes_of m ++ rest)
      ≡ ok (some (record { headers = m.headers; body = m.body; behind = rest }))
unfolding read_frame read_block read_text read_sized read_body
read_frame-message m rest h =
    let small : ltb max_body_bytes (length m.body) ≡ false = ground (arith, h.fits) in
    let there : ltb (length (m.body ++ rest)) (length m.body) ≡ false =
      ground (arith, length-append m.body rest) in
    rw (append_assoc m.front (b'\n' ∷ m.body) rest) (
      rw (read_headers-Quiet [] m.front (m.body ++ rest) h.quiet h.ends h.short) (
        rw (h.text, h.declared, small, there, take_append m.body rest, drop_append m.body rest)
          refl))

-- The reader always takes something from the stream when it gives a frame.
read_headers-behind :
    (acc stream : Bytes) (h : HeaderBlock)
    → read_headers acc stream ≡ ok (some h)
    → length h.behind < length stream
unfolding read_headers
read_headers-behind acc [] h e = ground (arith, e)
read_headers-behind acc (b ∷ stream) h e =
    ground (arith, e, read_headers-behind (acc ++ b ∷ []) stream h)

length-drop_le : (n : ℕ) (l : Bytes) → length (drop n l) ≤ length l
length-drop_le zero l = omega arith
length-drop_le (suc n) [] = omega arith
length-drop_le (suc n) (b ∷ l) = omega (arith, length-drop_le n l)

read_body-behind :
    (headers : Text) (n : ℕ) (stream : Bytes) (f : Frame)
    → read_body headers n stream ≡ ok (some f)
    → length f.behind ≤ length stream
unfolding read_body
read_body-behind headers n stream f e = ground (arith, e, length-drop_le n stream)

read_text-behind :
    (o : Option Text) (stream : Bytes) (f : Frame)
    → read_text o stream ≡ ok (some f)
    → length f.behind ≤ length stream
unfolding read_text read_sized
read_text-behind none stream f e = cc
read_text-behind (some headers) stream f e = sized (parse_content_length headers) e
  where
    sized :
        (l : Result ℕ LengthError)
        → read_sized headers stream l ≡ ok (some f)
        → length f.behind ≤ length stream
    sized (err x) w = cc
    sized (ok n) w = read_body-behind headers n stream f w

pub read_frame-behind :
    (stream : Bytes) (f : Frame) → read_frame stream ≡ ok (some f) → length f.behind < length stream
unfolding read_frame read_block
read_frame-behind stream f e = blocks (read_headers [] stream) refl e
  where
    blocks :
        (r : Result (Option HeaderBlock) FrameError)
        → read_headers [] stream ≡ r
        → read_block r ≡ ok (some f)
        → length f.behind < length stream
    blocks (err x) s w = cc
    blocks (ok none) s w = cc
    blocks (ok (some h)) s w = omega (
      arith,
      read_headers-behind [] stream h s,
      read_text-behind (decode_utf8 h.block) h.behind f w,
    )
