-- ===== src/Rpc/Requests.antt =====
-- Which requests are refused, which method a request calls, and what the replies are, by rules
-- (src/jsonrpc.rs).
use mathlib.Core.Option
use bo_srv_rs.Common.{◌≤◌, true, false, List, Option, none, some, ◌≡◌, length, ◌>>=◌}
use bo_srv_rs.Common.Int.{ℤ}
use bo_srv_rs.Common.Result.{Result, ok, err}
use bo_srv_rs.Common.Text.Decimal.{Text, codes}
use bo_srv_rs.Json.{Json, as_str, get, is_object}
use bo_srv_rs.Transport.Headers.{Request}
use bo_srv_rs.Rpc.Messages.{
  failure, invalid_request, method_not_found, invalid_params, fault, Envelope, pre1, DispatchResult,
  success_envelope, fault_envelope, select_version,
}
use bo_srv_rs.Rpc.Methods.{Method, method_named, ArgError, invalid_params_type, missing_required}
use bo_srv_rs.Rpc.Args.{slots_of, described}
use bo_srv_rs.Rpc.Invoke.{Handlers, invoke}
use bo_srv_rs.Rpc.Dispatch.{outcome_of, Processed}

module _ (j : Json) where
  open j use {Value, null_value, from_str, view}

  abbrev pub id_of : Value → Value
  id_of req = Option.get_or (get j req (codes "id")) null_value

  abbrev pub params_of : Value → Value
  params_of req = Option.get_or (get j req (codes "params")) null_value

  -- The arguments that a request gives for a method.
  abbrev pub args_of : Method → Value → Result (List Value) ArgError
  args_of m req = described j m (slots_of j m (view (params_of req)))

  -- A body is an object with a readable version.
  pub record IsRequest (body : Text) (req : Value) (envelope : Envelope) : Type 0 where
    pub parsed : from_str body ≡ some req
    pub object : is_object j req ≡ true
    pub version : select_version j req ≡ ok envelope

  abbrev pub name_of : Value → Option Text
  name_of req = get j req (codes "method") >>= as_str j

  -- A request for one of the methods.
  pub record IsCall (body : Text) (req : Value) (envelope : Envelope) (m : Method) : Type 0 where
    pub request : IsRequest body req envelope
    pub name : Text
    pub named : name_of req ≡ some name
    pub known : method_named name ≡ some m

  -- The bodies that are refused before any method is called, with the dialect, the id and the code
  -- of the fault.
  pub data Refused (body : Text) : Envelope → Value → ℤ → Type 0 where
    no_json : from_str body ≡ none → Refused body pre1 null_value invalid_request
    no_object :
        (req : Value)
        → from_str body ≡ some req
        → is_object j req ≡ false
        → Refused body pre1 null_value invalid_request
    no_version :
        (req : Value) (e : Unit {0})
        → from_str body ≡ some req
        → is_object j req ≡ true
        → select_version j req ≡ err e
        → Refused body pre1 null_value invalid_request
    no_method :
        (req : Value) (envelope : Envelope)
        → IsRequest body req envelope
        → name_of req ≡ none
        → Refused body envelope (id_of req) invalid_request
    unknown_method :
        (req : Value) (envelope : Envelope) (name : Text)
        → IsRequest body req envelope
        → name_of req ≡ some name
        → method_named name ≡ none
        → Refused body envelope (id_of req) method_not_found
    no_params :
        (req : Value) (envelope : Envelope) (m : Method)
        → IsCall body req envelope m
        → args_of m req ≡ err invalid_params_type
        → Refused body pre1 null_value invalid_params
    no_argument :
        (req : Value) (envelope : Envelope) (m : Method) (parameter : Text)
        → IsCall body req envelope m
        → args_of m req ≡ err (missing_required parameter)
        → Refused body envelope (id_of req) failure

  module _ {S E : Type 0} (h : Handlers Value S E) where
    -- The state, the request and the result that a body leads to, from a state and a request.
    pub data Reply (r : Request) (s : S) (body : Text) : Processed j h → Type 0 where
      refused :
          (envelope : Envelope) (id : Value) (code : ℤ) (message : Text) (d : DispatchResult)
          → Refused body envelope id code
          → d.meta.outcome ≡ some (fault code message)
          → d.response ≡ some (j.to_string (fault_envelope j envelope id code message))
          → Reply r s body (s, (r, d))
      returned :
          (req : Value) (envelope : Envelope) (m : Method) (args : List Value) (result : Value)
          (s' : S) (r' : Request) (d : DispatchResult)
          → IsCall body req envelope m
          → args_of m req ≡ ok args
          → invoke j h r m args s ≡ some (s', (r', ok result))
          → d.meta.outcome ≡ some (outcome_of r'.blocked_reason)
          → d.response ≡ some (j.to_string (success_envelope j envelope (id_of req) result))
          → Reply r s body (s', (r', d))
      failed :
          (req : Value) (envelope : Envelope) (m : Method) (args : List Value) (x : E) (s' : S)
          (r' : Request) (d : DispatchResult)
          → IsCall body req envelope m
          → args_of m req ≡ ok args
          → invoke j h r m args s ≡ some (s', (r', err x))
          → d.meta.outcome ≡ some (fault failure (h.error_text x))
          → d.response
            ≡ some (j.to_string (fault_envelope j envelope (id_of req) failure (h.error_text x)))
          → Reply r s body (s', (r', d))

    -- `process` gave a reply, and a short summary of the parameters for the access log.
    abbrev pub Answered : Request → S → Text → Option (Processed j h) → Type 0
    Answered r s body o =
        (p : Processed j h) × (o ≡ some p) × Reply r s body p × (length p.1.1.meta.params ≤ 161)
