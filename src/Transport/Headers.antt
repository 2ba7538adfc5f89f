-- ===== src/Transport/Headers.antt =====
-- The header lines of a frame: `parse_content_length` and `request_from_headers`
-- (src/transport.rs), and the `Request` that they fill (src/service.rs).
use bo_srv_rs.Common.{Bool, false, List, [], ◌∷◌, Option, none, some, if◌then◌else◌}
use bo_srv_rs.Common.Result.{Result, ok, err}
use bo_srv_rs.Common.Text.Case.{eq_ignore_ascii_case, to_ascii_lowercase}
use bo_srv_rs.Common.Text.Decimal.{Text, codes, parse_usize}
use bo_srv_rs.Common.Text.Fields.{lines}
use bo_srv_rs.Common.Text.Order.{text_eq}
use bo_srv_rs.Common.Text.Split.{split_once}
use bo_srv_rs.Common.Text.Trim.{trim}
use bo_srv_rs.Common.{ℕ}

-- The errors of `parse_content_length`; the first one quotes the value.
pub data LengthError : Type 0 where
  invalid_length : Text → LengthError
  missing_length : LengthError

abbrev pub length_of : Text → Option ℕ → Result ℕ LengthError
length_of value none = err (invalid_length value)
length_of value (some n) = ok n

-- The loop of `parse_content_length` over the lines.
unfoldable pub content_length_of : List Text → Result ℕ LengthError
content_length_of [] = err missing_length
content_length_of (line ∷ rest) =
    let later = content_length_of rest in
    elim (split_once b':' line) [
      | some (name, value) ↦
          if eq_ignore_ascii_case (trim name) (codes "content-length")
          then length_of value (parse_usize (trim value))
          else later
      | none ↦ later
    ]

unfoldable pub parse_content_length : Text → Result ℕ LengthError
unfolding content_length_of
parse_content_length headers = content_length_of (lines headers)

pub record Request : Type 0 where
  pub user_agent : Option Text
  pub client_ip : Option Text
  pub x_forwarded_for : Option Text
  pub content_type : Option Text
  pub referer : Option Text
  pub accept_encoding : Option Text
  pub accept_encoding_removed : Bool
  pub blocked_reason : Option Text

-- The `match` of one header line.
unfoldable pub set_header : Text → Text → Request → Request
set_header name value r =
    if text_eq name (codes "user-agent")
    then record r { user_agent = some value }
    else if text_eq name (codes "x-forwarded-for")
    then record r { x_forwarded_for = some value }
    else if text_eq name (codes "content-type")
    then record r { content_type = some value }
    else if text_eq name (codes "referer")
    then record r { referer = some value }
    else if text_eq name (codes "accept-encoding")
    then record r { accept_encoding = some value }
    else r

unfoldable pub read_header : Text → Request → Request
unfolding set_header
read_header line r = elim (split_once b':' line) [
  | some (name, value) ↦ set_header (to_ascii_lowercase (trim name)) (trim value) r
  | none ↦ r
]

unfoldable pub read_header_lines : List Text → Request → Request
unfolding read_header
read_header_lines [] r = r
read_header_lines (line ∷ rest) r = read_header_lines rest (read_header line r)

unfoldable pub request_from_headers : Text → Option Text → Request
unfolding read_header_lines
request_from_headers headers client_ip = read_header_lines (lines headers) (record {
  user_agent = none;
  client_ip = client_ip;
  x_forwarded_for = none;
  content_type = none;
  referer = none;
  accept_encoding = none;
  accept_encoding_removed = false;
  blocked_reason = none;
})
