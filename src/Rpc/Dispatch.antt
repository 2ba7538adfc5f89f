-- ===== src/Rpc/Dispatch.antt =====
-- `process` and `process_request` (src/jsonrpc.rs), up to the serialised response and the data for
-- the access log. An outer `none` is a panic.
use mathlib.Core.Option
use bo_srv_rs.Common.{true, false, List, ◌++◌, Option, none, some, ◌>>=◌}
use bo_srv_rs.Common.Int.{ℤ}
use bo_srv_rs.Common.Result.{Result, ok, err}
use bo_srv_rs.Common.Text.Decimal.{Text, codes}
use bo_srv_rs.Json.{Json, as_str, get, is_object}
use bo_srv_rs.Rpc.Messages.{
  failure, invalid_request, method_not_found, invalid_params, Outcome, success, blocked, fault,
  RequestMeta, no_meta, DispatchResult, Envelope, pre1, summarize_params, render_id,
  success_envelope, fault_envelope, select_version,
}
use bo_srv_rs.Rpc.Methods.{
  Method, method_named, ArgError, invalid_params_type, missing_required, resolve_args,
}
use bo_srv_rs.Rpc.Invoke.{Handled, Handlers, invoke}
use bo_srv_rs.Transport.Headers.{Request}

abbrev pub outcome_of : Option Text → Outcome
outcome_of none = success
outcome_of (some reason) = blocked reason

module _ (j : Json) {S E : Type 0} (h : Handlers j.Value S E) where
  open j use {Value, null_value, from_str, to_string}

  -- The state, the request and the result after a message.
  abbrev pub Processed : Type 0
  Processed = S × (Request × DispatchResult)

  -- A response with the outcome of the request.
  abbrev pub respond : RequestMeta → Outcome → Value → DispatchResult
  respond meta outcome response = record {
    response = some (to_string response);
    meta = record meta { outcome = some outcome };
  }

  abbrev pub respond_fault : RequestMeta → Envelope → Value → ℤ → Text → DispatchResult
  respond_fault meta envelope id code message =
      respond meta (fault code message) (fault_envelope j envelope id code message)

  -- The answer to a call that has come back.
  unfoldable pub answer : RequestMeta → Envelope → Value → Handled Value S E → Processed
  answer meta envelope id (s, (r, ok result)) =
      (s, (r, respond meta (outcome_of r.blocked_reason) (success_envelope j envelope id result)))
  answer meta envelope id (s, (r, err e)) =
      (s, (r, respond_fault meta envelope id failure (h.error_text e)))

  -- From the arguments on.
  unfoldable pub call :
      Request
      → RequestMeta
      → Envelope
      → Value
      → Method
      → Result (List Value) ArgError
      → S
      → Option Processed
  unfolding answer
  call r meta envelope id m (err invalid_params_type) s =
      let message = codes "Invalid params: expected an array or object" in
      some (s, (r, respond_fault meta pre1 null_value invalid_params message))
  call r meta envelope id m (err (missing_required name)) s =
      let message = codes "missing 1 required positional argument: '" ++ (name ++ codes "'") in
      some (s, (r, respond_fault meta envelope id failure message))
  call r meta envelope id m (ok args) s =
      Option.map (answer meta envelope id) (invoke j h r m args s)

  -- From the name of the method on.
  unfoldable pub process_method :
      Request → RequestMeta → Envelope → (req id : Value) → Option Text → S → Option Processed
  unfolding call
  process_method r meta envelope req id none s =
      let message = codes "Invalid Request: missing method" in
      some (s, (r, respond_fault meta envelope id invalid_request message))
  process_method r meta envelope req id (some name) s =
      let named = record meta { method = some name } in
      elim (method_named name) [
        | none ↦
            let message = codes "function " ++ (name ++ codes " not found") in
            some (s, (r, respond_fault named envelope id method_not_found message))
        | some m ↦
            resolve_args j m (Option.get_or (get j req (codes "params")) null_value) >>= λ args.
            call r named envelope id m args s
      ]

  unfoldable pub process_request : Request → Value → S → Option Processed
  unfolding process_method
  process_request r req s = elim (is_object j req) [
    | false ↦
        let message = codes "Invalid Request: expected a JSON object" in
        some (s, (r, respond_fault no_meta pre1 null_value invalid_request message))
    | true ↦ elim (select_version j req) [
      | err _ ↦
          let message = codes "invalid jsonrpc version field" in
          some (s, (r, respond_fault no_meta pre1 null_value invalid_request message))
      | ok envelope ↦
          let id = Option.get_or (get j req (codes "id")) null_value in
          let params = Option.get_or (get j req (codes "params")) null_value in
          let meta = record no_meta { id = render_id j id; params = summarize_params j params } in
          process_method r meta envelope req id (get j req (codes "method") >>= as_str j) s
    ]
  ]

  unfoldable pub process : Request → Text → S → Option Processed
  unfolding process_request
  process r body s = elim (from_str body) [
    | none ↦
        some (s, (r, respond_fault no_meta pre1 null_value invalid_request (codes "parse error")))
    | some req ↦ process_request r req s
  ]
