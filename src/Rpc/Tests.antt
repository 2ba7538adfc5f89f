-- ===== src/Rpc/Tests.antt =====
-- Runs of the dispatch of JSON-RPC (src/jsonrpc.rs).
use bo_srv_rs.Common.{ℕ, ◌+◌, List, [], ◌∷◌, ◌++◌, none, some, ◌≡◌, refl, length, arith}
use bo_srv_rs.Common.Int.{pos}
use bo_srv_rs.Common.Result.{ok, err}
use bo_srv_rs.Common.Text.Decimal.{Text, codes}
use bo_srv_rs.Common.Text.Utf8.{Bytes}
use bo_srv_rs.Common.Text.Order.{text_eq}
use bo_srv_rs.Json.Sample.{
  Sample, whole, items, fields, nil, cons, end, field, sample_json, field_named,
}
use bo_srv_rs.Rpc.Args.{resolve_args-described, resolve_args-named, described, slots_of}
use bo_srv_rs.Rpc.Invoke.{Handlers}
use bo_srv_rs.Rpc.Methods.{
  get_global_clusters, resolve_args, missing_required, method_spec, get_local_clusters,
}
use bo_srv_rs.Rpc.Serving.{dispatch, Serves, frames, handle_connection-frames}
use bo_srv_rs.Transport.Connection.{closed, handle_connection}
use bo_srv_rs.Transport.Conversation.{stream_of}
use bo_srv_rs.Transport.Frame.{read_frame}
use bo_srv_rs.Transport.Frame.Encoded.{message_of, message_of-IsMessage}
use bo_srv_rs.Transport.Frame.Reader.{Message}
use bo_srv_rs.Transport.Headers.{Request, request_from_headers}

-- A service that counts its calls.
abbrev counting : Handlers Sample ℕ Text
counting = record {
  check_call = λ s. (s + 1, whole (pos s));
  strikes = λ r a b. none;
  strikes_grid = λ r a b c d e s. (s + 1, (r, ok a));
  strikes_raster = λ r a b c d s. (s + 1, (r, ok a));
  global_strikes_grid = λ r a b c d s. (s + 1, (r, ok a));
  local_strikes_grid = λ r a b c d e f g s. (s + 1, (r, err (codes "no database")));
  global_clusters = λ r a b c s. (s + 1, (r, ok c));
  local_clusters = λ r a b c d e f s. (s + 1, (r, ok a));
  error_text = λ t. t;
}

abbrev no_headers : Request
unfolding request_from_headers
no_headers = request_from_headers [] none

abbrev by_places : Sample
by_places = items (cons (whole (pos 60)) (cons (whole (pos 5)) nil))

abbrev by_names : Sample
by_names = fields (
    field (codes "minute_offset") (whole (pos 5))
      (field (codes "minute_length") (whole (pos 60)) end))

resolve_args_test :
    resolve_args sample_json get_global_clusters by_names
    ≡ some (ok (whole (pos 60) ∷ whole (pos 5) ∷ whole (pos 1) ∷ []))
unfolding resolve_args text_eq
resolve_args_test = refl

missing_test :
    resolve_args sample_json get_local_clusters by_names ≡ some (err (missing_required (codes "x")))
unfolding resolve_args text_eq
missing_test = refl

resolve_args-described_example :
    resolve_args sample_json get_global_clusters by_places
    ≡ some (
        described sample_json get_global_clusters
          (slots_of sample_json get_global_clusters (sample_json.view by_places)))
resolve_args-described_example = resolve_args-described sample_json get_global_clusters by_places

resolve_args-named_example :
    resolve_args sample_json get_global_clusters by_places
    ≡ resolve_args sample_json get_global_clusters by_names
unfolding method_spec text_eq
resolve_args-named_example =
    resolve_args-named sample_json get_global_clusters by_places by_names
      (whole (pos 60) ∷ whole (pos 5) ∷ [])
      (field_named (
        field (codes "minute_offset") (whole (pos 5))
          (field (codes "minute_length") (whole (pos 60)) end)))
      refl refl (refl, (refl, (refl, tt)))

abbrev two_calls : List Message
two_calls = message_of (codes "call") ∷ message_of (codes "check") ∷ []

end_of_stream : read_frame [] ≡ ok none
unfolding read_frame
end_of_stream = refl

handle_connection-frames_example :
    (s' : ℕ) × (responses : List Bytes) × Serves sample_json counting
      (λ b. b)
      (λ t. t)
      none
      3
      two_calls
      s'
      responses
    × (length responses ≡ length two_calls)
    × (handle_connection
          (dispatch sample_json counting (λ b. b) (λ t. t))
          none
          3
          (stream_of two_calls ++ [])
        ≡ record { state = s'; written = frames responses; ending = closed })
handle_connection-frames_example =
    handle_connection-frames sample_json counting (λ b. b) (λ t. t) none 3 two_calls [] closed
      (
        message_of-IsMessage (codes "call") (omega arith),
        (message_of-IsMessage (codes "check") (omega arith), tt),
      )
      end_of_stream
