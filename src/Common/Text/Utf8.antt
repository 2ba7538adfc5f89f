-- ===== src/Common/Text/Utf8.antt =====
-- `str::from_utf8`: bytes to the code points they encode.
use bo_srv_rs.Common.{
  ℕ, ◌+◌, ◌-◌, ◌*◌, ◌<◌, Bool, ◌&&◌, List, [], ◌∷◌, Option, none, some, ◌≡◌, refl, arith, ltb, leb,
  ◌==◌, if◌then◌else◌, All,
}
use bo_srv_rs.Common.Text.Decimal.{Text}

abbrev pub Bytes : Type 0
Bytes = List ℕ

-- Between two bytes: how many continuation bytes are missing, the bits read so far, and the
-- range of the next byte.
pub record Pending : Type 0 where
  pub missing : ℕ
  pub bits : ℕ
  pub low : ℕ
  pub high : ℕ

abbrev continue : ℕ → ℕ → ℕ → ℕ → Option Pending
continue missing bits low high =
    some (record { missing = missing; bits = bits; low = low; high = high })

abbrev between : ℕ → ℕ → ℕ → Bool
between low high b = leb low b && leb b high

-- The first byte of a character of several bytes.
abbrev lead : ℕ → Option Pending
lead b =
    if between 0xc2 0xdf b
    then continue 1 (b - 0xc0) 0x80 0xbf
    else if b == 0xe0
    then continue 2 0 0xa0 0xbf
    else if b == 0xed
    then continue 2 0xd 0x80 0x9f
    else if between 0xe1 0xef b
    then continue 2 (b - 0xe0) 0x80 0xbf
    else if b == 0xf0
    then continue 3 0 0x90 0xbf
    else if between 0xf1 0xf3 b
    then continue 3 (b - 0xf0) 0x80 0xbf
    else if b == 0xf4
    then continue 3 4 0x80 0x8f
    else none

-- The next byte of such a character.
pub data Next : Type 0 where
  refused : Next
  complete : ℕ → Next
  pending : Pending → Next

abbrev advance : Pending → ℕ → Next
advance p b =
    let bits = p.bits * 64 + (b - 0x80) in
    if between p.low p.high b
    then (if p.missing == 1
        then complete bits
        else pending (record { missing = p.missing - 1; bits = bits; low = 0x80; high = 0xbf }))
    else refused

abbrev read_byte : Option Pending → ℕ → Next
read_byte (some p) b = advance p b
read_byte none b =
    if ltb b 0x80 then complete b else elim (lead b) [ none ↦ refused | some p ↦ pending p ]

prepend_to : ℕ → Option Text → Option Text
prepend_to c none = none
prepend_to c (some t) = some (c ∷ t)

decode : Option Pending → Bytes → Option Text
unfolding prepend_to
decode none [] = some []
decode (some p) [] = none
decode state (b ∷ bs) = elim (read_byte state b) [
  | refused ↦ none
  | complete c ↦ prepend_to c (decode none bs)
  | pending p ↦ decode (some p) bs
]

unfoldable pub decode_utf8 : Bytes → Option Text
unfolding decode
decode_utf8 bs = decode none bs

decode-ascii : (t : Text) → All (λ c. c < 128) t → decode none t ≡ some t
unfolding decode prepend_to
decode-ascii [] h = refl
decode-ascii (c ∷ cs) h = ground (arith, decode-ascii cs h.1)

-- A text of ASCII characters is its own encoding.
pub decode_utf8-ascii : (t : Text) → All (λ c. c < 128) t → decode_utf8 t ≡ some t
unfolding decode_utf8
decode_utf8-ascii t h = decode-ascii t h
