-- ===== src/Rpc/Args.antt =====
-- The arguments of a request (src/jsonrpc.rs): `resolve_args` against a description by two lists,
-- the first parameter that is missing and the values with the defaults put in.
use bo_srv_rs.Common.{
  List, Option, none, some, ◌≡◌, refl, sym, ap, ◌∙◌, length, replicate, Option-cases, inl, inr,
}
use bo_srv_rs.Common.Result.{Result, ok, err}
use bo_srv_rs.Common.Text.Decimal.{Text}
use bo_srv_rs.Json.{Json, View}
use bo_srv_rs.Rpc.Methods.{
  Method, check, get_strikes, get_strikes_grid, get_strikes_raster, get_strokes_raster,
  get_global_strikes_grid, get_local_strikes_grid, get_global_clusters, get_local_clusters,
  method_spec, method_defaults, ArgError, missing_required, invalid_params_type, fill_positional,
  put_defaults, given_args, resolve_args,
}
use bo_srv_rs.Rpc.Slots.{
  first_missing, merge, resolved, named_slots, SameArgs, put_defaults-resolved,
  length-fill_positional, fill_named-slots, length-named_slots, length-replicate, length-merge,
  named_slots-positional,
}

module _ (j : Json) where
  open j use {Value, view}

  -- The values of a request in the order of the parameters; none if `params` has a wrong type.
  abbrev pub slots_of : Method → View Value → Option (List (Option Value))
  slots_of m View.null = some (replicate (length (method_spec m)) none)
  slots_of m (View.array items) = some (fill_positional (length (method_spec m)) items)
  slots_of m (View.object fields) = some (named_slots fields (method_spec m))
  slots_of m _ = none

  abbrev pub described : Method → Option (List (Option Value)) → Result (List Value) ArgError
  described m none = err invalid_params_type
  described m (some slots) =
      resolved (first_missing slots (method_spec m)) (merge slots (method_defaults j m))

  pub length-method_defaults : (m : Method) → length (method_defaults j m) ≡ length (method_spec m)
  unfolding method_defaults method_spec
  length-method_defaults check = refl
  length-method_defaults get_strikes = refl
  length-method_defaults get_strikes_grid = refl
  length-method_defaults get_strikes_raster = refl
  length-method_defaults get_strokes_raster = refl
  length-method_defaults get_global_strikes_grid = refl
  length-method_defaults get_local_strikes_grid = refl
  length-method_defaults get_global_clusters = refl
  length-method_defaults get_local_clusters = refl

  given_args-slots_of : (m : Method) (v : View Value) → given_args j m v ≡ some (slots_of m v)
  unfolding given_args
  given_args-slots_of m View.null = rw (length-method_defaults m) refl
  given_args-slots_of m (View.array items) = rw (length-method_defaults m) refl
  given_args-slots_of m (View.object fields) =
      rw (length-method_defaults m, fill_named-slots fields (method_spec m)) refl
  given_args-slots_of m (View.boolean b) = refl
  given_args-slots_of m (View.number n) = refl
  given_args-slots_of m (View.string t) = refl

  -- A value for each parameter, unless the type is wrong.
  abbrev Fits : Method → Option (List (Option Value)) → Type 0
  Fits m none = Unit
  Fits m (some slots) = length slots ≡ length (method_spec m)

  slots_of-Fits : (m : Method) (v : View Value) → Fits m (slots_of m v)
  slots_of-Fits m View.null = length-replicate (length (method_spec m)) none
  slots_of-Fits m (View.array items) = length-fill_positional (length (method_spec m)) items
  slots_of-Fits m (View.object fields) = length-named_slots fields (method_spec m)
  slots_of-Fits m (View.boolean b) = tt
  slots_of-Fits m (View.number n) = tt
  slots_of-Fits m (View.string t) = tt

  resolve_slots :
      (m : Method) (o : Option (List (Option Value)))
      → Fits m o
      → (elim o as (λ _. Option (Result (List Value) ArgError)) [
        | none ↦ some (err invalid_params_type)
        | some slots ↦ put_defaults slots (method_spec m) (method_defaults j m)
      ])
        ≡ some (described m o)
  resolve_slots m none h = refl
  resolve_slots m (some slots) h =
      put_defaults-resolved slots (method_spec m) (method_defaults j m) h
        (h ∙ sym (length-method_defaults m))

  -- `resolve_args` never panics, and the arguments of a method are these: if `params` is neither
  -- null, an array nor an object, an error of the type; else, if a required parameter is not
  -- given, an error that names the first such; else the given values, in the order of the
  -- parameters, with the default of each one that is not given. An array gives them by their
  -- places and may be too long, an object by their names.
  pub resolve_args-described :
      (m : Method) (params : Value)
      → resolve_args j m params ≡ some (described m (slots_of m (view params)))
  unfolding resolve_args
  resolve_args-described m params =
      rw (resolve_args, given_args-slots_of m (view params))
        (resolve_slots m (slots_of m (view params)) (slots_of-Fits m (view params)))

  -- A request that gives the parameters by their places and one that gives them by their names
  -- have the same arguments, or the same error, if each name has the value at its place, and none
  -- where the array is at its end; values behind the last parameter and fields of other names do
  -- not count.
  pub resolve_args-named :
      (m : Method) (params params' : Value) (items : List Value) (fields : Text → Option Value)
      → view params ≡ View.array items
      → view params' ≡ View.object fields
      → SameArgs fields (method_spec m) items
      → resolve_args j m params ≡ resolve_args j m params'
  resolve_args-named m params params' items fields places names same =
      rw
        (
          resolve_args-described m params,
          resolve_args-described m params',
          places,
          names,
          named_slots-positional fields (method_spec m) items same,
        )
        refl

  described-length :
      (m : Method) (o : Option (List (Option Value))) (args : List Value)
      → Fits m o
      → described m o ≡ ok args
      → length args ≡ length (method_spec m)
  described-length m none args f h = cc
  described-length m (some slots) args f h =
      elim (Option-cases (first_missing slots (method_spec m))) [
        | inl e ↦
            let merged : Path (Result (List Value) ArgError)
                (ok (merge slots (method_defaults j m))) (ok args) =
              rw e at h in
            let same : merge slots (method_defaults j m) ≡ args = cc in
            ap length (sym same)
            ∙ length-merge slots (method_defaults j m) (f ∙ sym (length-method_defaults m))
            ∙ length-method_defaults m
        | inr (name, e) ↦
            let bad : Path (Result (List Value) ArgError) (err (missing_required name)) (ok args) =
              rw e at h in
            cc
      ]

  -- The arguments of a call are as many as the parameters.
  pub length-described :
      (m : Method) (v : View Value) (args : List Value)
      → described m (slots_of m v) ≡ ok args
      → length args ≡ length (method_spec m)
  length-described m v args h = described-length m (slots_of m v) args (slots_of-Fits m v) h
