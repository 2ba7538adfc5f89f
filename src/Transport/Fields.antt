-- ===== src/Transport/Fields.antt =====
-- `request_from_headers` (src/transport.rs): which lines of the headers a request remembers.
use bo_srv_rs.Common.{
  true, false, List, [], ◌∷◌, Option, none, some, ◌≡◌, refl, ◌∙◌, arith, if◌then◌else◌,
}
use bo_srv_rs.Common.Text.Case.{to_ascii_lowercase}
use bo_srv_rs.Common.Text.Decimal.{Text, codes}
use bo_srv_rs.Common.Text.Fields.{lines}
use bo_srv_rs.Common.Text.Order.{text_eq, text_eq_iff}
use bo_srv_rs.Common.Text.Split.{split_once}
use bo_srv_rs.Common.Text.Trim.{trim}
use bo_srv_rs.Transport.Headers.{
  Request, set_header, read_header, read_header_lines, request_from_headers,
}

-- The value of a line under a name, without regard to the case of the name.
abbrev pub value_in : Text → Option (Text × Text) → Option Text
value_in name none = none
value_in name (some (n, value)) =
    if text_eq (to_ascii_lowercase (trim n)) name then some (trim value) else none

abbrev pub or_else : Option Text → Option Text → Option Text
or_else none other = other
or_else (some v) other = some v

-- The value of the last line under a name.
abbrev pub last_value : Text → List Text → Option Text
last_value name [] = none
last_value name (line ∷ rest) =
    or_else (last_value name rest) (value_in name (split_once b':' line))

distinct : (a b n : Text) → text_eq a b ≡ false → text_eq n a ≡ true → text_eq n b ≡ false
distinct a b n d h = rw ((text_eq_iff n a).0 h) d

record Remembers (r r' : Request) (value : Text → Option Text) : Type 0 where
  user_agent : r'.user_agent ≡ or_else (value (codes "user-agent")) r.user_agent
  x_forwarded_for : r'.x_forwarded_for ≡ or_else (value (codes "x-forwarded-for")) r.x_forwarded_for
  content_type : r'.content_type ≡ or_else (value (codes "content-type")) r.content_type
  referer : r'.referer ≡ or_else (value (codes "referer")) r.referer
  accept_encoding : r'.accept_encoding ≡ or_else (value (codes "accept-encoding")) r.accept_encoding
  client_ip : r'.client_ip ≡ r.client_ip
  blocked_reason : r'.blocked_reason ≡ r.blocked_reason

abbrev when_named : Text → Text → Text → Option Text
when_named n value name = if text_eq n name then some value else none

apart :
    (n : Text)
    → (text_eq n (codes "x-forwarded-for") ≡ true → text_eq n (codes "user-agent") ≡ false)
      × (text_eq n (codes "content-type") ≡ true
          → (text_eq n (codes "user-agent") ≡ false)
            × (text_eq n (codes "x-forwarded-for") ≡ false))
      × (text_eq n (codes "referer") ≡ true
          → (text_eq n (codes "user-agent") ≡ false)
            × (text_eq n (codes "x-forwarded-for") ≡ false)
            × (text_eq n (codes "content-type") ≡ false))
      × (text_eq n (codes "accept-encoding") ≡ true
          → (text_eq n (codes "user-agent") ≡ false)
            × (text_eq n (codes "x-forwarded-for") ≡ false)
            × (text_eq n (codes "content-type") ≡ false)
            × (text_eq n (codes "referer") ≡ false))
unfolding text_eq
apart n = (
  λ h. distinct _ _ n refl h,
  λ h. (distinct _ _ n refl h, distinct _ _ n refl h),
  λ h. (distinct _ _ n refl h, distinct _ _ n refl h, distinct _ _ n refl h),
  λ h. (distinct _ _ n refl h, distinct _ _ n refl h, distinct _ _ n refl h, distinct _ _ n refl h),
)

set_header-Remembers :
    (n value : Text) (r : Request) → Remembers r (set_header n value r) (when_named n value)
unfolding set_header
set_header-Remembers n value r = ground (arith, apart n)

read_header-Remembers :
    (line : Text) (r : Request)
    → Remembers r (read_header line r) (λ name. value_in name (split_once b':' line))
unfolding read_header
read_header-Remembers line r = parts (split_once b':' line)
  where
    parts :
        (o : Option (Text × Text))
        → Remembers r
            (elim o [
              | some (name, value) ↦ set_header (to_ascii_lowercase (trim name)) (trim value) r
              | none ↦ r
            ])
            (λ name. value_in name o)
    parts none = record {
      user_agent = refl;
      x_forwarded_for = refl;
      content_type = refl;
      referer = refl;
      accept_encoding = refl;
      client_ip = refl;
      blocked_reason = refl;
    }
    parts (some (name, value)) =
        set_header-Remembers (to_ascii_lowercase (trim name)) (trim value) r

chain :
    (a b c : Option Text) {x y : Option Text}
    → x ≡ or_else a y
    → y ≡ or_else b c
    → x ≡ or_else (or_else a b) c
chain none b c f g = f ∙ g
chain (some a) b c f g = f

read_header_lines-Remembers :
    (ls : List Text) (r : Request)
    → Remembers r (read_header_lines ls r) (λ name. last_value name ls)
unfolding read_header_lines
read_header_lines-Remembers [] r = record {
  user_agent = refl;
  x_forwarded_for = refl;
  content_type = refl;
  referer = refl;
  accept_encoding = refl;
  client_ip = refl;
  blocked_reason = refl;
}
read_header_lines-Remembers (line ∷ rest) r =
    let rest_value : Text → Option Text = λ name. last_value name rest in
    let line_value : Text → Option Text = λ name. value_in name (split_once b':' line) in
    let first = read_header-Remembers line r in
    let later = read_header_lines-Remembers rest (read_header line r) in
    record {
      user_agent =
          chain (rest_value (codes "user-agent")) (line_value (codes "user-agent")) r.user_agent
            later.user_agent first.user_agent;
      x_forwarded_for =
          chain (rest_value (codes "x-forwarded-for")) (line_value (codes "x-forwarded-for"))
            r.x_forwarded_for later.x_forwarded_for first.x_forwarded_for;
      content_type =
          chain (rest_value (codes "content-type")) (line_value (codes "content-type"))
            r.content_type later.content_type first.content_type;
      referer =
          chain (rest_value (codes "referer")) (line_value (codes "referer")) r.referer
            later.referer first.referer;
      accept_encoding =
          chain (rest_value (codes "accept-encoding")) (line_value (codes "accept-encoding"))
            r.accept_encoding later.accept_encoding first.accept_encoding;
      client_ip = later.client_ip ∙ first.client_ip;
      blocked_reason = later.blocked_reason ∙ first.blocked_reason;
    }

or_else-none : (o : Option Text) → or_else o none ≡ o
or_else-none none = refl
or_else-none (some t) = refl

-- A request remembers, of each of its five header lines, the value of the last line under that
-- name, whatever the case of the name, or nothing if there is none; the address of the client is
-- the one given, and nothing is blocked yet.
pub request_from_headers-last_value :
    (headers : Text) (ip : Option Text)
    → let r = request_from_headers headers ip in
      (r.user_agent ≡ last_value (codes "user-agent") (lines headers))
      × (r.x_forwarded_for ≡ last_value (codes "x-forwarded-for") (lines headers))
      × (r.content_type ≡ last_value (codes "content-type") (lines headers))
      × (r.referer ≡ last_value (codes "referer") (lines headers))
      × (r.accept_encoding ≡ last_value (codes "accept-encoding") (lines headers))
      × (r.client_ip ≡ ip)
      × (r.blocked_reason ≡ none)
unfolding request_from_headers
request_from_headers-last_value headers ip =
    let m = read_header_lines-Remembers (lines headers) (record {
      user_agent = none;
      client_ip = ip;
      x_forwarded_for = none;
      content_type = none;
      referer = none;
      accept_encoding = none;
      accept_encoding_removed = false;
      blocked_reason = none;
    }) in
    (
      m.user_agent ∙ or_else-none (last_value (codes "user-agent") (lines headers)),
      m.x_forwarded_for ∙ or_else-none (last_value (codes "x-forwarded-for") (lines headers)),
      m.content_type ∙ or_else-none (last_value (codes "content-type") (lines headers)),
      m.referer ∙ or_else-none (last_value (codes "referer") (lines headers)),
      m.accept_encoding ∙ or_else-none (last_value (codes "accept-encoding") (lines headers)),
      m.client_ip,
      m.blocked_reason,
    )
