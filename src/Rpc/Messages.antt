-- ===== src/Rpc/Messages.antt =====
-- The messages of JSON-RPC (src/jsonrpc.rs): dialects, envelopes, and the data for the access log.
use bo_srv_rs.Common.{ℕ, [], ◌∷◌, ◌++◌, Option, none, some, ◌>>=◌, if◌then◌else◌, leb, length, take}
use bo_srv_rs.Common.Int.{ℤ, pos, negsuc, ◌==ℤ◌}
use bo_srv_rs.Common.Result.{Result, ok, err}
use bo_srv_rs.Common.Text.Decimal.{Text, codes}
use bo_srv_rs.Common.Text.Trim.{is_empty}
use bo_srv_rs.Json.{Json, View, as_str, get}

abbrev pub failure : ℤ
failure = pos 8002

abbrev pub invalid_request : ℤ
invalid_request = negsuc 32599

abbrev pub method_not_found : ℤ
method_not_found = negsuc 32600

abbrev pub invalid_params : ℤ
invalid_params = negsuc 32601

pub data Outcome : Type 0 where
  success : Outcome
  blocked : Text → Outcome
  fault : ℤ → Text → Outcome

-- `Outcome::label`.
unfoldable pub label : Outcome → Text
label success = codes "ok"
label (blocked _) = codes "BLOCKED"
label (fault _ _) = codes "fault"

pub record RequestMeta : Type 0 where
  pub method : Option Text
  pub id : Text
  pub params : Text
  pub outcome : Option Outcome

-- `RequestMeta::default()`.
abbrev pub no_meta : RequestMeta
no_meta = record { method = none; id = []; params = []; outcome = none }

pub record DispatchResult : Type 0 where
  pub response : Option Text
  pub meta : RequestMeta

-- `expect_response`; `none` is a panic.
unfoldable pub expect_response : DispatchResult → Option Text
expect_response d = d.response

pub data Envelope : Type 0 where
  pre1 : Envelope
  v1 : Envelope
  v2 : Envelope

abbrev pub max_params_summary : ℕ
max_params_summary = 160

unfoldable pub bounded : Text → Text
bounded text =
    if leb (length text) max_params_summary then text else take max_params_summary text ++ codes "…"

module _ (j : Json) where
  open j use {
    Value, view, null_value, int_value, text_value, array_value, object_value, to_string, parse_f64,
  }

  unfoldable pub params_text : Value → Text
  params_text params = elim (view params) [ View.null ↦ codes "null" | _ ↦ to_string params ]

  unfoldable pub summarize_params : Value → Text
  unfolding bounded params_text
  summarize_params params = bounded (params_text params)

  unfoldable pub render_id : Value → Text
  render_id id = elim (view id) [ View.null ↦ codes "null" | View.string s ↦ s | _ ↦ to_string id ]

  unfoldable pub success_envelope : Envelope → Value → Value → Value
  success_envelope pre1 id result = array_value (result ∷ [])
  success_envelope v1 id result =
      object_value ((codes "result", result) ∷ (codes "error", null_value) ∷ (codes "id", id) ∷ [])
  success_envelope v2 id result = object_value (
      (codes "jsonrpc", text_value (codes "2.0"))
      ∷ (codes "result", result)
      ∷ (codes "id", id)
      ∷ [])

  -- The fault itself, in the two older dialects.
  unfoldable pub fault_value : ℤ → Text → Value
  fault_value code message = object_value (
      (codes "fault", text_value (codes "Fault"))
      ∷ (codes "faultCode", int_value code)
      ∷ (codes "faultString", text_value message)
      ∷ [])

  unfoldable pub fault_envelope : Envelope → Value → ℤ → Text → Value
  unfolding fault_value
  fault_envelope pre1 id code message = fault_value code message
  fault_envelope v1 id code message = object_value (
      (codes "result", null_value)
      ∷ (codes "error", fault_value code message)
      ∷ (codes "id", id)
      ∷ [])
  fault_envelope v2 id code message =
      let error = object_value (
        (codes "message", text_value message)
        ∷ (codes "code", int_value code)
        ∷ (codes "data", text_value [])
        ∷ []) in
      object_value (
        (codes "jsonrpc", text_value (codes "2.0"))
        ∷ (codes "error", error)
        ∷ (codes "id", id)
        ∷ [])

  -- The dialect that a version field selects.
  unfoldable pub field_version : Option (Option ℤ) → Result Envelope Unit
  field_version none = err tt
  field_version (some none) = err tt
  field_version (some (some n)) = ok (if n ==ℤ pos 2 then v2 else v1)

  -- The dialect of a request with no version field, from its id.
  unfoldable pub id_version : Option Value → Envelope
  id_version none = pre1
  id_version (some id) = elim (view id) [
    | View.null ↦ pre1
    | View.number n ↦ elim n.as_i64 [ some i ↦ if i ==ℤ pos 0 then pre1 else v1 | none ↦ v1 ]
    | View.string s ↦ if is_empty s then pre1 else v1
    | View.boolean b ↦ if b then v1 else pre1
    | _ ↦ v1
  ]

  unfoldable pub select_version : Value → Result Envelope Unit
  unfolding field_version id_version get as_str
  select_version req = elim (get j req (codes "jsonrpc") >>= as_str j) [
    | some field ↦ field_version (parse_f64 field)
    | none ↦ ok (id_version (get j req (codes "id")))
  ]
