-- ===== src/Transport/Frame/Partial.antt =====
-- `decode_frame` on a buffer that is still filling (src/transport.rs).
use bo_srv_rs.Common.{
  ℕ, zero, suc, ◌+◌, ◌-◌, ◌≤◌, ◌<◌, true, [], ◌∷◌, ◌++◌, Option, none, some, ◌≡◌, refl, ◌∙◌, ap,
  arith, ltb, length, length-append, length-take, take, drop, inl, inr, Bool-cases, Option-cases,
}
use bo_srv_rs.Common.Result.{Result, ok, err}
use bo_srv_rs.Common.Text.Decimal.{Text}
use bo_srv_rs.Common.Text.Fields.{Without}
use bo_srv_rs.Common.Text.Split.{starts_with}
use bo_srv_rs.Common.Text.Utf8.{Bytes, decode_utf8}
use bo_srv_rs.Transport.Headers.{LengthError, parse_content_length}
use bo_srv_rs.Transport.Frame.Defs.{
  blank_line, content_length_header, position_of, find_headers_end, decode_body, decode_sized,
  decode_headers, decode_frame, encode_frame, max_body_bytes, FrameError,
}
use bo_srv_rs.Transport.Frame.Header.{header-IsPlain, plain-Without_cr}
use bo_srv_rs.Transport.Frame.RoundTrip.{header-Declares, length_framed, decode_frame_incomplete}

-- No blank line ends before the end of the first one.
position_of-cut :
    (h body : Bytes) (k : ℕ)
    → Without b'\r' h
    → k < length h + 4
    → position_of blank_line (take k (h ++ (blank_line ++ body))) ≡ none
unfolding position_of starts_with
position_of-cut h body zero w lt = refl
position_of-cut [] body (suc zero) w lt = refl
position_of-cut [] body (suc (suc zero)) w lt = refl
position_of-cut [] body (suc (suc (suc zero))) w lt = refl
position_of-cut [] body (suc (suc (suc (suc k)))) w lt = absurd (omega arith)
position_of-cut (c ∷ h) body (suc k) w lt =
    ground (arith, position_of-cut h body k w.1 (omega arith))

take_framed :
    (h body : Bytes) (j : ℕ)
    → take (length h + 4 + j) (h ++ (blank_line ++ body)) ≡ h ++ (blank_line ++ take j body)
take_framed [] body j =
    let four : 0 + 4 + j ≡ suc (suc (suc (suc j))) = omega arith in
    ap (λ k. take k (blank_line ++ body)) four
take_framed (c ∷ h) body j =
    let shift : suc (length h) + 4 + j ≡ suc (length h + 4 + j) = omega arith in
    ap (λ k. take k (c ∷ (h ++ (blank_line ++ body)))) shift ∙ ap (◌∷◌ c) (take_framed h body j)

decode_frame-cut :
    (h body : Bytes) (k : ℕ)
    → Without b'\r' h
    → k < length h + 4
    → decode_frame (take k (h ++ (blank_line ++ body))) ≡ none
unfolding decode_frame find_headers_end
decode_frame-cut h body k w lt =
    elim (Bool-cases (ltb (length (take k (h ++ (blank_line ++ body)))) 4)) [
      | inl e ↦ rw e refl
      | inr e ↦ rw (e, position_of-cut h body k w lt) refl
    ]

-- As long as the last byte of a frame is missing, `decode_frame` asks for more: on no proper
-- prefix of an encoded body within the limit does it give a body or an error.
pub decode_frame-take :
    (body : Bytes) (k : ℕ)
    → length body ≤ max_body_bytes
    → k < length (encode_frame body)
    → decode_frame (take k (encode_frame body)) ≡ none
unfolding encode_frame
decode_frame-take body k le lt =
    let n = length body in
    let h = content_length_header n in
    elim (Bool-cases (ltb k (length h + 4))) [
      | inl e ↦
          decode_frame-cut h body k (plain-Without_cr h (header-IsPlain n)) (ground (arith, e))
      | inr e ↦
          let j = k - (length h + 4) in
          let split : k ≡ length h + 4 + j = ground (arith, e) in
          rw split (
            rw (take_framed h body j) (
              decode_frame_incomplete h (take j body) n (header-Declares n le)
                (omega (arith, length-take j body, length_framed h body, split, lt))))
    ]

starts_with-append :
    (w t more : Bytes) → length w ≤ length t → starts_with w (t ++ more) ≡ starts_with w t
unfolding starts_with
starts_with-append [] t more le = refl
starts_with-append (x ∷ w) [] more le = absurd (omega arith)
starts_with-append (x ∷ w) (c ∷ t) more le =
    ground (arith, starts_with-append w t more (omega arith))

starts_with-length : (w t : Bytes) → starts_with w t ≡ true → length w ≤ length t
unfolding starts_with
starts_with-length [] t h = omega arith
starts_with-length (x ∷ w) (c ∷ t) h = ground (arith, starts_with-length w t)
starts_with-length (x ∷ w) [] h = cc

position_of-length : (w t : Bytes) (n : ℕ) → position_of w t ≡ some n → n + length w ≤ length t
unfolding position_of
position_of-length w [] n h = cc
position_of-length w (c ∷ t) n h = elim (Bool-cases (starts_with w (c ∷ t))) [
  | inl e ↦ ground (arith, e, h, starts_with-length w (c ∷ t) e)
  | inr e ↦ elim (Option-cases (position_of w t)) [
    | inl o ↦ ground (arith, e, o, h)
    | inr (m, o) ↦ ground (arith, e, o, h, position_of-length w t m o)
  ]
]

position_of-append_more :
    (w t more : Bytes) (n : ℕ) → position_of w t ≡ some n → position_of w (t ++ more) ≡ some n
unfolding position_of
position_of-append_more w [] more n h = cc
position_of-append_more w (c ∷ t) more n h = elim (Bool-cases (starts_with w (c ∷ t))) [
  | inl e ↦
      rw (starts_with-append w (c ∷ t) more (starts_with-length w (c ∷ t) e), e)
        (ground (arith, e, h))
  | inr e ↦ elim (Option-cases (position_of w t)) [
    | inl o ↦ ground (arith, e, o, h)
    | inr (m, o) ↦
        let room = position_of-length w t m o in
        rw
          (
            starts_with-append w (c ∷ t) more (omega (arith, room)),
            e,
            position_of-append_more w t more m o,
          )
          (ground (arith, e, h, o))
  ]
]

find_headers_end-more :
    (buf more : Bytes) (n : ℕ)
    → find_headers_end buf ≡ some n
    → (find_headers_end (buf ++ more) ≡ some n) × (n + 4 ≤ length buf)
unfolding find_headers_end
find_headers_end-more buf more n h = elim (Bool-cases (ltb (length buf) 4)) [
  | inl e ↦ ground (arith, e, h)
  | inr e ↦
      let found : position_of blank_line buf ≡ some n = rw e at h in
      (
        ground
            (arith, length-append buf more, position_of-append_more blank_line buf more n found, e),
        position_of-length blank_line buf n found,
      )
]

take_more : (n : ℕ) (buf more : Bytes) → n ≤ length buf → take n (buf ++ more) ≡ take n buf
take_more zero buf more le = refl
take_more (suc n) [] more le = absurd (omega arith)
take_more (suc n) (b ∷ buf) more le = ap (◌∷◌ b) (take_more n buf more (omega arith))

drop_more : (n : ℕ) (buf more : Bytes) → n ≤ length buf → drop n (buf ++ more) ≡ drop n buf ++ more
drop_more zero buf more le = refl
drop_more (suc n) [] more le = absurd (omega arith)
drop_more (suc n) (b ∷ buf) more le = drop_more n buf more (omega arith)

length-drop : (n : ℕ) (buf : Bytes) → length (drop n buf) ≡ length buf - n
length-drop zero buf = omega arith
length-drop (suc n) [] = omega arith
length-drop (suc n) (b ∷ buf) = omega (arith, length-drop n buf)

decode_body-more :
    (buf more : Bytes) (e n : ℕ) (r : Result Bytes FrameError)
    → decode_body buf e n ≡ some r
    → decode_body (buf ++ more) e n ≡ some r
unfolding decode_body
decode_body-more buf more e n r h = elim (Bool-cases (ltb (length buf) (e + 4 + n))) [
  | inl short ↦ ground (arith, short, h)
  | inr long ↦
      let d = drop_more (e + 4) buf more (ground (arith, long)) in
      let t = take_more n (drop (e + 4) buf) more (ground (arith, long, length-drop (e + 4) buf)) in
      rw (d, t) (ground (arith, h, long, length-append buf more))
]

decode_headers-more :
    (buf more : Bytes) (e : ℕ) (o : Option Text) (r : Result Bytes FrameError)
    → decode_headers buf e o ≡ some r
    → decode_headers (buf ++ more) e o ≡ some r
unfolding decode_headers decode_sized
decode_headers-more buf more e none r h = h
decode_headers-more buf more e (some headers) r h = sized (parse_content_length headers) h
  where
    sized :
        (l : Result ℕ LengthError)
        → decode_sized buf e l ≡ some r
        → decode_sized (buf ++ more) e l ≡ some r
    sized (err x) w = w
    sized (ok n) w = decode_body-more buf more e n r w

-- What `decode_frame` has made of a buffer stays when more bytes arrive, be it a body or an
-- error.
pub decode_frame-append :
    (buf more : Bytes) (r : Result Bytes FrameError)
    → decode_frame buf ≡ some r
    → decode_frame (buf ++ more) ≡ some r
unfolding decode_frame
decode_frame-append buf more r h = elim (Option-cases (find_headers_end buf)) [
  | inl e ↦ absurd (ground (arith, rw e at h))
  | inr (n, e) ↦
      let (found, room) = find_headers_end-more buf more n e in
      let rest = decode_headers-more buf more n (decode_utf8 (take n buf)) r in
      rw (found, take_more n buf more (omega (arith, room))) (ground (arith, rw e at h, rest))
]
