-- ===== src/Transport/Tests.antt =====
-- The framed transport (src/transport.rs) at concrete streams.
use bo_srv_rs.Common.{ℕ, ◌+◌, List, [], ◌∷◌, ◌++◌, Option, none, some, ◌≡◌, ◌≢◌, refl, arith, take}
use bo_srv_rs.Common.Result.{ok, err}
use bo_srv_rs.Common.Text.Case.{eq_ignore_ascii_case}
use bo_srv_rs.Common.Text.Decimal.{codes, parse_usize, print_ℕ}
use bo_srv_rs.Common.Text.Fields.{lines}
use bo_srv_rs.Common.Text.Order.{text_eq}
use bo_srv_rs.Common.Text.Split.{ends_with, starts_with, split_once}
use bo_srv_rs.Common.Text.Trim.{trim}
use bo_srv_rs.Common.Text.Utf8.{Bytes, decode_utf8}
use bo_srv_rs.Transport.Headers.{
  Request, request_from_headers, parse_content_length, missing_length,
}
use bo_srv_rs.Transport.Frame.{
  bad_length, eof_in_headers, read_frame, read_headers, read_block, decode_frame, find_headers_end,
  decode_headers, decode_sized, decode_body, encode_frame,
}
use bo_srv_rs.Transport.Frame.RoundTrip.{decode_frame-encode_frame}
use bo_srv_rs.Transport.Frame.Partial.{decode_frame-take}
use bo_srv_rs.Transport.Frame.Reader.{Message, IsMessage, is_quiet, is_quiet-Quiet}
use bo_srv_rs.Transport.Frame.Encoded.{message_of, message_of-IsMessage}
use bo_srv_rs.Transport.Connection.{failed, out_of_fuel, handle_connection}
use bo_srv_rs.Transport.Conversation.{
  stream_of, answer_all, handle_connection-stream_of, handle_connection_ends,
}
use bo_srv_rs.Transport.Fields.{last_value, request_from_headers-last_value}

abbrev hello : Bytes
hello = codes "hello"

decode_frame-encode_frame_example :
    decode_frame (encode_frame hello ++ codes "Content") ≡ some (ok hello)
decode_frame-encode_frame_example = decode_frame-encode_frame hello (codes "Content") (omega arith)

frame_of_hello : encode_frame hello ≡ codes "Content-Length: 5\r\n\r\nhello"
unfolding encode_frame print_ℕ
frame_of_hello = refl

decode_frame-take_example : decode_frame (take 25 (encode_frame hello)) ≡ none
decode_frame-take_example =
    decode_frame-take hello 25 (omega arith) (unfold encode_frame print_ℕ in omega arith)

-- A frame without a length.
abbrev nameless : Bytes
nameless = codes "Foo: bar\r\n\r\n{}"

nameless_refused : decode_frame nameless ≡ some (err (bad_length missing_length))
unfolding decode_frame find_headers_end decode_headers decode_sized decode_body decode_utf8
    parse_content_length lines split_once trim eq_ignore_ascii_case starts_with
nameless_refused = refl

-- A service that counts its requests and echoes the bodies of those with a user agent.
abbrev echo : Request → Bytes → ℕ → ℕ × Option Bytes
echo r body n = (n + 1, elim r.user_agent [ none ↦ none | some _ ↦ some body ])

-- A message with two header lines.
abbrev greeting : Message
greeting = record {
  front = codes "User-Agent: bo-android-190\r\nContent-Length: 5\r\n\r";
  headers = codes "User-Agent: bo-android-190\r\nContent-Length: 5\r\n\r\n";
  body = hello;
}

greeting-IsMessage : IsMessage greeting
unfolding ends_with text_eq decode_utf8 parse_content_length lines split_once trim
    eq_ignore_ascii_case is_quiet parse_usize
greeting-IsMessage = record {
  quiet = is_quiet-Quiet [] greeting.front refl;
  ends = refl;
  short = omega arith;
  text = refl;
  declared = refl;
  fits = omega arith;
}

eof : read_frame (codes "Con") ≡ err eof_in_headers
unfolding read_frame read_headers read_block ends_with text_eq
eof = refl

abbrev sent : List Message
sent = greeting ∷ message_of hello ∷ []

handle_connection-stream_of_example :
    handle_connection echo none 0 (stream_of sent ++ codes "Con") ≡ record {
      state = (answer_all echo none 0 sent).0;
      written = (answer_all echo none 0 sent).1;
      ending = failed eof_in_headers;
    }
handle_connection-stream_of_example =
    handle_connection-stream_of echo none 0 sent (codes "Con") (failed eof_in_headers)
      (greeting-IsMessage, (message_of-IsMessage hello (omega arith), tt)) eof

handle_connection_ends_example :
    (handle_connection echo none 0 (codes "Content-Length: x\r\n\r\n")).ending ≢ out_of_fuel
handle_connection_ends_example =
    handle_connection_ends echo none 0 (codes "Content-Length: x\r\n\r\n")

request_from_headers-last_value_example :
    let headers = greeting.headers in
    let r = request_from_headers headers none in
    (r.user_agent ≡ last_value (codes "user-agent") (lines headers))
    × (r.x_forwarded_for ≡ last_value (codes "x-forwarded-for") (lines headers))
    × (r.content_type ≡ last_value (codes "content-type") (lines headers))
    × (r.referer ≡ last_value (codes "referer") (lines headers))
    × (r.accept_encoding ≡ last_value (codes "accept-encoding") (lines headers))
    × (r.client_ip ≡ none)
    × (r.blocked_reason ≡ none)
request_from_headers-last_value_example = request_from_headers-last_value greeting.headers none
