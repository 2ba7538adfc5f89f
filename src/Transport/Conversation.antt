-- ===== src/Transport/Conversation.antt =====
-- The conversation of `handle_connection` (src/transport.rs) with a peer.
use bo_srv_rs.Common.{
  ℕ, zero, suc, ◌+◌, ◌<◌, List, [], ◌∷◌, ◌++◌, Option, none, some, ◌≡◌, ◌≢◌, refl, ◌∙◌, arith,
  length, length-append, All, append_assoc, append_nil, ◌⊎◌, inl, inr,
}
use bo_srv_rs.Common.Result.{Result, ok, err}
use bo_srv_rs.Common.Text.Decimal.{Text}
use bo_srv_rs.Common.Text.Utf8.{Bytes}
use bo_srv_rs.Transport.Headers.{Request, request_from_headers}
use bo_srv_rs.Transport.Frame.{FrameError, Frame, read_frame}
use bo_srv_rs.Transport.Frame.Reader.{
  Message, IsMessage, bytes_of, read_frame-message, read_frame-behind,
}
use bo_srv_rs.Transport.Connection.{
  Ending, closed, failed, out_of_fuel, reply, converse, handle_connection,
}

-- The bytes of messages one behind the other.
abbrev pub stream_of : List Message → Bytes
stream_of [] = []
stream_of (m ∷ ms) = bytes_of m ++ stream_of ms

-- What is left of the stream makes the connection end so.
abbrev pub EndsWith : Bytes → Ending → Type 0
EndsWith tail closed = read_frame tail ≡ ok none
EndsWith tail (failed e) = read_frame tail ≡ err e
EndsWith tail out_of_fuel = ⊥

read-cases :
    (r : Result (Option Frame) FrameError)
    → ((x : FrameError) × (r ≡ err x)) ⊎ ((r ≡ ok none) ⊎ ((f : Frame) × (r ≡ ok (some f))))
read-cases (err x) = inl (x, refl)
read-cases (ok none) = inr (inl refl)
read-cases (ok (some f)) = inr (inr (f, refl))

module _ {S : Type 0} (dispatch : Request → Bytes → S → S × Option Bytes)
    (peer_ip : Option Text) where
  -- The state after messages and the responses to them, in order.
  abbrev pub answer_all : S → List Message → S × Bytes
  answer_all state [] = (state, [])
  answer_all state (m ∷ ms) =
      let (next, response) = dispatch (request_from_headers m.headers peer_ip) m.body state in
      let (last, written) = answer_all next ms in (last, reply response ++ written)

  converse_end :
      (fuel : ℕ) (state : S) (tail written : Bytes) (e : Ending)
      → EndsWith tail e
      → converse dispatch peer_ip (suc fuel) state tail written
        ≡ record { state = state; written = written; ending = e }
  unfolding converse
  converse_end fuel state tail written closed h = rw (h, converse) refl
  converse_end fuel state tail written (failed e) h = rw (h, converse) refl
  converse_end fuel state tail written out_of_fuel h = absurd h

  converse-stream_of :
      (fuel : ℕ) (state : S) (ms : List Message) (tail written : Bytes) (e : Ending)
      → All IsMessage ms
      → EndsWith tail e
      → length (stream_of ms ++ tail) < fuel
      → converse dispatch peer_ip fuel state (stream_of ms ++ tail) written ≡ record {
        state = (answer_all state ms).0;
        written = written ++ (answer_all state ms).1;
        ending = e;
      }
  unfolding converse
  converse-stream_of zero state ms tail written e v h lt = absurd (omega (arith, lt))
  converse-stream_of (suc fuel) state [] tail written e v h lt =
      converse_end fuel state tail written e h ∙ rw (append_nil written) refl
  converse-stream_of (suc fuel) state (m ∷ ms) tail written e v h lt =
      let (next, response) = dispatch (request_from_headers m.headers peer_ip) m.body state in
      rw (append_assoc (bytes_of m) (stream_of ms) tail) (
        rw (read_frame-message m (stream_of ms ++ tail) v.0, converse)
          (rw (← append_assoc written (reply response) (answer_all next ms).1) (
            converse-stream_of fuel next ms tail (written ++ reply response) e v.1 h
              (omega (arith, lt, shorter)))))
    where
      shorter : length (stream_of ms ++ tail) < length ((bytes_of m ++ stream_of ms) ++ tail)
      shorter = omega (
        arith,
        length-append (bytes_of m ++ stream_of ms) tail,
        length-append (bytes_of m) (stream_of ms),
        length-append m.front (b'\n' ∷ m.body),
        length-append (stream_of ms) tail,
      )

  -- A peer that sends messages one behind the other, whatever their headers and bodies are, gets
  -- the responses to all of them, in their order, each in a frame of its own, and the service
  -- goes through the states that the requests lead to. If the stream ends behind the last
  -- message, the connection closes; if something unacceptable follows, the messages in front of
  -- it are answered all the same and the connection fails with that error.
  pub handle_connection-stream_of :
      (state : S) (ms : List Message) (tail : Bytes) (e : Ending)
      → All IsMessage ms
      → EndsWith tail e
      → handle_connection dispatch peer_ip state (stream_of ms ++ tail)
        ≡ record { state = (answer_all state ms).0; written = (answer_all state ms).1; ending = e }
  unfolding handle_connection
  handle_connection-stream_of state ms tail e v h =
      converse-stream_of (length (stream_of ms ++ tail) + 1) state ms tail [] e v h (omega arith)

  converse_ends :
      (fuel : ℕ) (state : S) (stream written : Bytes)
      → length stream < fuel
      → (converse dispatch peer_ip fuel state stream written).ending ≢ out_of_fuel
  unfolding converse
  converse_ends zero state stream written lt = absurd (omega (arith, lt))
  converse_ends (suc fuel) state stream written lt = elim (read-cases (read_frame stream)) [
    | inl (x, r) ↦ λ h. let bad : failed x ≡ out_of_fuel = rw (r, converse) at h in cc
    | inr (inl r) ↦ λ h. let bad : closed ≡ out_of_fuel = rw (r, converse) at h in cc
    | inr (inr (f, r)) ↦
        let (next, response) = dispatch (request_from_headers f.headers peer_ip) f.body state in
        rw (r, converse)
          (converse_ends fuel next f.behind (written ++ reply response)
            (omega (arith, read_frame-behind stream f r)))
  ]

  -- Every connection comes to an end: whatever bytes the peer sends before it closes, the loop
  -- stops with a closed connection or an error.
  pub handle_connection_ends :
      (state : S) (stream : Bytes)
      → (handle_connection dispatch peer_ip state stream).ending ≢ out_of_fuel
  unfolding handle_connection
  handle_connection_ends state stream =
      converse_ends (length stream + 1) state stream [] (omega arith)
