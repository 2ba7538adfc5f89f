-- ===== src/Rpc/Replies.antt =====
-- `process` (src/jsonrpc.rs) as a whole: one reply to every body, in the dialect of the request.
use bo_srv_rs.Common.{◌≤◌, some, refl, length, arith, ◌≡◌, inl, inr, Bool-cases, Option-cases}
use bo_srv_rs.Common.Result.{Result-cases}
use bo_srv_rs.Common.Text.Decimal.{Text}
use bo_srv_rs.Json.{Json, is_object}
use bo_srv_rs.Transport.Headers.{Request}
use bo_srv_rs.Rpc.Messages.{no_meta, summarize_params, render_id, params_text, select_version}
use bo_srv_rs.Rpc.Invoke.{Handlers}
use bo_srv_rs.Rpc.Dispatch.{process_request, process}
use bo_srv_rs.Rpc.Requests.{
  id_of, params_of, name_of, no_json, no_object, no_version, refused, Answered,
}
use bo_srv_rs.Rpc.Answers.{process_method-Answered, length-bounded}

module _ (j : Json) {S E : Type 0} (h : Handlers j.Value S E) where
  open j use {Value, null_value, from_str, to_string}

  summarize_params-le : (params : Value) → length (summarize_params j params) ≤ 161
  unfolding summarize_params
  summarize_params-le params = length-bounded (params_text j params)

  process_request-Answered :
      (r : Request) (s : S) (body : Text) (req : Value)
      → from_str body ≡ some req
      → Answered j h r s body (process_request j h r req s)
  unfolding process_request
  process_request-Answered r s body req parsed = elim (Bool-cases (is_object j req)) [
    | inr e ↦
        rw (e, process_request)
          (_, refl, refused _ _ _ _ _ (no_object req parsed e) refl refl, omega arith)
    | inl e ↦ elim (Result-cases (select_version j req)) [
      | inr (x, v) ↦
          rw (e, v, process_request)
            (_, refl, refused _ _ _ _ _ (no_version req x parsed e v) refl refl, omega arith)
      | inl (envelope, v) ↦
          let meta = record no_meta {
            id = render_id j (id_of j req);
            params = summarize_params j (params_of j req);
          } in
          rw (e, v, process_request)
            (process_method-Answered j h r s body meta req envelope (name_of j req)
              (record { parsed = parsed; object = e; version = v }) refl
              (summarize_params-le (params_of j req)))
    ]
  ]

  pub process-Answered :
      (r : Request) (s : S) (body : Text) → Answered j h r s body (process j h r body s)
  unfolding process
  process-Answered r s body = elim (Option-cases (from_str body)) [
    | inl e ↦ rw (e, process) (_, refl, refused _ _ _ _ _ (no_json e) refl refl, omega arith)
    | inr (req, e) ↦ rw (e, process) (process_request-Answered r s body req e)
  ]
