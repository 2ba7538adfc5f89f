-- ===== src/Transport/Connection.antt =====
-- `handle_connection` (src/transport.rs): frames are read and answered in order. The dispatch of
-- a request to the service is a parameter: it takes the request and the bytes of the body, and
-- the state of the service, and may give a response.
use bo_srv_rs.Common.{ℕ, zero, suc, ◌+◌, [], ◌++◌, Option, none, some, length}
use bo_srv_rs.Common.Result.{ok, err}
use bo_srv_rs.Common.Text.Decimal.{Text}
use bo_srv_rs.Common.Text.Utf8.{Bytes}
use bo_srv_rs.Transport.Headers.{Request, request_from_headers}
use bo_srv_rs.Transport.Frame.{FrameError, read_frame, encode_frame}

-- How a connection ends: the peer has closed it, or a frame was not acceptable.
pub data Ending : Type 0 where
  closed : Ending
  failed : FrameError → Ending
  out_of_fuel : Ending

pub record Conversation (S : Type 0) : Type 0 where
  pub state : S
  pub written : Bytes
  pub ending : Ending

abbrev pub reply : Option Bytes → Bytes
reply none = []
reply (some response) = encode_frame response

module _ {S : Type 0} (dispatch : Request → Bytes → S → S × Option Bytes)
    (peer_ip : Option Text) where
  -- The loop, on what is left of the stream and what is written so far.
  unfoldable pub converse : ℕ → S → Bytes → Bytes → Conversation S
  converse zero state stream written = record {
    state = state;
    written = written;
    ending = out_of_fuel;
  }
  converse (suc fuel) state stream written = elim (read_frame stream) [
    | err e ↦ record { state = state; written = written; ending = failed e }
    | ok none ↦ record { state = state; written = written; ending = closed }
    | ok (some f) ↦
        let (later, response) = dispatch (request_from_headers f.headers peer_ip) f.body state in
        converse fuel later f.behind (written ++ reply response)
  ]

  -- A frame takes at least one byte, so that this fuel is enough.
  unfoldable pub handle_connection : S → Bytes → Conversation S
  unfolding converse
  handle_connection state stream = converse (length stream + 1) state stream []
