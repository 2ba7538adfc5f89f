-- ===== src/Transport/Frame/Defs.antt =====
-- The functions of src/transport.rs on frames.
use bo_srv_rs.Common.{
  ℕ, suc, ◌+◌, ◌*◌, [], ◌∷◌, ◌++◌, Option, none, some, ◌>>=◌, ltb, if◌then◌else◌, length, take,
  drop,
}
use bo_srv_rs.Common.Result.{Result, ok, err}
use bo_srv_rs.Common.Text.Decimal.{Text, codes, print_ℕ}
use bo_srv_rs.Common.Text.Split.{starts_with, ends_with}
use bo_srv_rs.Common.Text.Trim.{is_empty}
use bo_srv_rs.Common.Text.Utf8.{Bytes, decode_utf8}
use bo_srv_rs.Transport.Headers.{LengthError, parse_content_length}

abbrev pub max_header_bytes : ℕ
max_header_bytes = 8192

abbrev pub max_body_bytes : ℕ
max_body_bytes = 256 * 1024 * 1024

abbrev pub blank_line : Bytes
blank_line = codes "\r\n\r\n"

abbrev pub content_length_header : ℕ → Bytes
content_length_header n = codes "Content-Length: " ++ print_ℕ n

unfoldable pub encode_frame : Bytes → Bytes
encode_frame body = content_length_header (length body) ++ (blank_line ++ body)

-- `windows(4).position(...)`.
unfoldable pub position_of : Bytes → Bytes → Option ℕ
position_of w [] = none
position_of w (b ∷ bs) =
    let later = position_of w bs in
    if starts_with w (b ∷ bs) then some 0 else later >>= λ n. some (suc n)

unfoldable pub find_headers_end : Bytes → Option ℕ
unfolding position_of
find_headers_end buf = if ltb (length buf) 4 then none else position_of blank_line buf

pub data FrameError : Type 0 where
  headers_too_large : FrameError
  headers_not_utf8 : FrameError
  bad_length : LengthError → FrameError
  body_too_large : FrameError
  eof_in_headers : FrameError
  eof_in_body : FrameError

-- The end of `decode_frame`, when the length of the body is known.
unfoldable pub decode_body : Bytes → ℕ → ℕ → Option (Result Bytes FrameError)
decode_body buf header_end content_length =
    if ltb max_body_bytes content_length
    then some (err body_too_large)
    else if ltb (length buf) (header_end + 4 + content_length)
    then none
    else some (ok (take content_length (drop (header_end + 4) buf)))

-- What follows once the length is parsed, and once the headers are text.
unfoldable pub decode_sized : Bytes → ℕ → Result ℕ LengthError → Option (Result Bytes FrameError)
unfolding decode_body
decode_sized buf header_end (err e) = some (err (bad_length e))
decode_sized buf header_end (ok content_length) = decode_body buf header_end content_length

unfoldable pub decode_headers : Bytes → ℕ → Option Text → Option (Result Bytes FrameError)
unfolding decode_sized
decode_headers buf header_end none = some (err headers_not_utf8)
decode_headers buf header_end (some headers) =
    decode_sized buf header_end (parse_content_length headers)

unfoldable pub decode_frame : Bytes → Option (Result Bytes FrameError)
unfolding find_headers_end decode_headers
decode_frame buf = do
  header_end ← find_headers_end buf
  if ltb max_header_bytes header_end
      then some (err headers_too_large)
      else decode_headers buf header_end (decode_utf8 (take header_end buf))

-- The header block with its blank line, and the bytes behind it; `none` at the end of the
-- stream.
pub record HeaderBlock : Type 0 where
  pub block : Bytes
  pub behind : Bytes

-- The loop of `read_frame`, byte by byte.
unfoldable pub read_headers : Bytes → Bytes → Result (Option HeaderBlock) FrameError
read_headers header_buf [] = if is_empty header_buf then ok none else err eof_in_headers
read_headers header_buf (byte ∷ rest) =
    let longer = header_buf ++ byte ∷ [] in
    let more = read_headers longer rest in
    if ltb max_header_bytes (length longer)
    then err headers_too_large
    else if ends_with blank_line longer
    then ok (some (record { block = longer; behind = rest }))
    else more

-- A frame of the stream, and the bytes behind it.
pub record Frame : Type 0 where
  pub headers : Text
  pub body : Bytes
  pub behind : Bytes

-- `read_exact`.
unfoldable pub read_body : Text → ℕ → Bytes → Result (Option Frame) FrameError
read_body headers content_length stream =
    if ltb max_body_bytes content_length
    then err body_too_large
    else if ltb (length stream) content_length
    then err eof_in_body
    else ok (
        some (record {
          headers = headers;
          body = take content_length stream;
          behind = drop content_length stream;
        }))

unfoldable pub read_sized : Text → Bytes → Result ℕ LengthError → Result (Option Frame) FrameError
unfolding read_body
read_sized headers stream (err e) = err (bad_length e)
read_sized headers stream (ok content_length) = read_body headers content_length stream

unfoldable pub read_text : Option Text → Bytes → Result (Option Frame) FrameError
unfolding read_sized
read_text none stream = err headers_not_utf8
read_text (some headers) stream = read_sized headers stream (parse_content_length headers)

unfoldable pub read_block :
    Result (Option HeaderBlock) FrameError → Result (Option Frame) FrameError
unfolding read_text
read_block (err e) = err e
read_block (ok none) = ok none
read_block (ok (some h)) = read_text (decode_utf8 h.block) h.behind

-- The reader of the next frame; `ok none` is the end of the stream between two frames.
unfoldable pub read_frame : Bytes → Result (Option Frame) FrameError
unfolding read_headers read_block
read_frame stream = read_block (read_headers [] stream)
