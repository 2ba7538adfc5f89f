-- ===== src/Rpc/Serving.antt =====
-- `handle_connection` (src/transport.rs) with the dispatch of src/jsonrpc.rs: a peer's messages and
-- the responses to them. `String::from_utf8_lossy` and the bytes of a response are parameters.
use mathlib.Core.Option
use bo_srv_rs.Common.{suc, List, [], ◌∷◌, ◌++◌, Option, none, some, ◌≡◌, refl, ap, ◌∙◌, length, All}
use bo_srv_rs.Common.Text.Decimal.{Text}
use bo_srv_rs.Common.Text.Utf8.{Bytes}
use bo_srv_rs.Json.{Json}
use bo_srv_rs.Rpc.Invoke.{Handlers}
use bo_srv_rs.Rpc.Dispatch.{Processed, process}
use bo_srv_rs.Rpc.Messages.{DispatchResult}
use bo_srv_rs.Rpc.Requests.{Reply, refused, returned, failed}
use bo_srv_rs.Rpc.Replies.{process-Answered}
use bo_srv_rs.Transport.Connection.{Ending, handle_connection}
use bo_srv_rs.Transport.Conversation.{stream_of, EndsWith, answer_all, handle_connection-stream_of}
use bo_srv_rs.Transport.Frame.{encode_frame}
use bo_srv_rs.Transport.Frame.Reader.{Message, IsMessage}
use bo_srv_rs.Transport.Headers.{Request, request_from_headers}

-- Frames one behind the other.
abbrev pub frames : List Bytes → Bytes
frames [] = []
frames (b ∷ bs) = encode_frame b ++ frames bs

module _ (j : Json) {S E : Type 0} (h : Handlers j.Value S E) (lossy : Bytes → Text)
    (bytes_of_text : Text → Bytes) where
  -- What the connection does with a message; a panic would give nothing.
  abbrev pub after_process : S → Option (Processed j h) → S × Option Bytes
  after_process s none = (s, none)
  after_process s (some (s', (r', d))) = (s', Option.map bytes_of_text d.response)

  unfoldable pub dispatch : Request → Bytes → S → S × Option Bytes
  unfolding process
  dispatch r body s = after_process s (process j h r (lossy body) s)

  -- The responses to messages that come one behind the other: each is the one that `process`
  -- has made of its message, in the state that the messages before it have left.
  pub data Serves (peer_ip : Option Text) : S → List Message → S → List Bytes → Type 0 where
    none_left : (s : S) → Serves peer_ip s [] s []
    replied :
        (s s1 s' : S) (m : Message) (ms : List Message) (r' : Request) (d : DispatchResult)
        (t : Text) (responses : List Bytes)
        → process j h (request_from_headers m.headers peer_ip) (lossy m.body) s ≡ some (s1, (r', d))
        → d.response ≡ some t
        → Serves peer_ip s1 ms s' responses
        → Serves peer_ip s (m ∷ ms) s' (bytes_of_text t ∷ responses)

  pub Serves-length :
      {peer_ip : Option Text} {s s' : S} {ms : List Message} {responses : List Bytes}
      → Serves peer_ip s ms s' responses
      → length responses ≡ length ms
  Serves-length (none_left s) = refl
  Serves-length (replied s s1 s' m ms r' d t responses e f rest) = ap suc (Serves-length rest)

  Reply-response :
      {r : Request} {s : S} {body : Text} (p : Processed j h)
      → Reply j h r s body p
      → (t : Text) × (p.1.1.response ≡ some t)
  Reply-response p (refused _ _ _ _ _ _ _ e) = (_, e)
  Reply-response p (returned _ _ _ _ _ _ _ _ _ _ _ _ e) = (_, e)
  Reply-response p (failed _ _ _ _ _ _ _ _ _ _ _ _ e) = (_, e)

  dispatch-reply :
      (r : Request) (body : Bytes) (s : S)
      → (p : Processed j h) × (t : Text) × (process j h r (lossy body) s ≡ some p)
        × (p.1.1.response ≡ some t)
        × (dispatch r body s ≡ (p.0, some (bytes_of_text t)))
  unfolding dispatch
  dispatch-reply r body s =
      let (p, e, reply, _) = process-Answered j h r s (lossy body) in
      let (t, f) = Reply-response p reply in (p, t, e, f, rw (e, f) refl)

  answer_all-Serves :
      (peer_ip : Option Text) (s : S) (ms : List Message)
      → (responses : List Bytes) × Serves peer_ip s ms
          (answer_all dispatch peer_ip s ms).0
          responses
        × ((answer_all dispatch peer_ip s ms).1 ≡ frames responses)
  answer_all-Serves peer_ip s [] = ([], none_left s, refl)
  answer_all-Serves peer_ip s (m ∷ ms) =
      let ((s1, (r', d)), t, e, f, g) =
        dispatch-reply (request_from_headers m.headers peer_ip) m.body s in
      let (bs, serves, w) = answer_all-Serves peer_ip s1 ms in
      (bytes_of_text t ∷ bs, rw g (replied s s1 _ m ms r' d t bs e f serves), rw (g, w) refl)

  -- A peer that sends well-formed messages one behind the other, whatever their bodies are, gets
  -- one response frame for each, in the order of the messages and with nothing between them: the
  -- response that `process` makes of the message in the state that the messages before it have
  -- left. Then the connection ends as the rest of the stream makes it end.
  pub handle_connection-frames :
      (peer_ip : Option Text) (s : S) (ms : List Message) (tail : Bytes) (e : Ending)
      → All IsMessage ms
      → EndsWith tail e
      → (s' : S) × (responses : List Bytes) × Serves peer_ip s ms s' responses
        × (length responses ≡ length ms)
        × (handle_connection dispatch peer_ip s (stream_of ms ++ tail)
            ≡ record { state = s'; written = frames responses; ending = e })
  handle_connection-frames peer_ip s ms tail e v ends =
      let (bs, serves, f) = answer_all-Serves peer_ip s ms in
      (
        (answer_all dispatch peer_ip s ms).0,
        bs,
        serves,
        Serves-length serves,
        handle_connection-stream_of dispatch peer_ip s ms tail e v ends
            ∙ ap
                (λ written. record {
                  state = (answer_all dispatch peer_ip s ms).0;
                  written = written;
                  ending = e;
                })
                f,
      )
