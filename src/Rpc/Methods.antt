-- ===== src/Rpc/Methods.antt =====
-- The methods of the service (src/jsonrpc.rs): their parameters, the arguments of a request, and
-- the call. `none` is a panic.
use mathlib.Core.Option
use bo_srv_rs.Common.{
  ℕ, zero, suc, Bool, true, false, List, [], ◌∷◌, Option, none, some, if◌then◌else◌, length,
  replicate,
}
use bo_srv_rs.Common.Int.{pos}
use bo_srv_rs.Common.Result.{Result, ok, err}
use bo_srv_rs.Common.Text.Decimal.{Text, codes}
use bo_srv_rs.Common.Text.Order.{text_eq}
use bo_srv_rs.Json.{Json, View}

-- The arms of the matches on the name of a method.
pub data Method : Type 0 where
  check : Method
  get_strikes : Method
  get_strikes_grid : Method
  get_strikes_raster : Method
  get_strokes_raster : Method
  get_global_strikes_grid : Method
  get_local_strikes_grid : Method
  get_global_clusters : Method
  get_local_clusters : Method

unfoldable pub method_named : Text → Option Method
method_named name =
    if text_eq name (codes "check")
    then some check
    else if text_eq name (codes "get_strikes")
    then some get_strikes
    else if text_eq name (codes "get_strikes_grid")
    then some get_strikes_grid
    else if text_eq name (codes "get_strikes_raster")
    then some get_strikes_raster
    else if text_eq name (codes "get_strokes_raster")
    then some get_strokes_raster
    else if text_eq name (codes "get_global_strikes_grid")
    then some get_global_strikes_grid
    else if text_eq name (codes "get_local_strikes_grid")
    then some get_local_strikes_grid
    else if text_eq name (codes "get_global_clusters")
    then some get_global_clusters
    else if text_eq name (codes "get_local_clusters")
    then some get_local_clusters
    else none

-- A parameter: its name, and whether it is required.
abbrev pub Param : Type 0
Param = Text × Bool

abbrev required : Text → Param
required name = (name, true)

abbrev optional : Text → Param
optional name = (name, false)

abbrev raster_spec : List Param
raster_spec =
    required (codes "minute_length")
    ∷ optional (codes "grid_base_length")
    ∷ optional (codes "minute_offset")
    ∷ optional (codes "region")
    ∷ optional (codes "count_threshold")
    ∷ []

unfoldable pub method_spec : Method → List Param
method_spec check = []
method_spec get_strikes = required (codes "minute_length") ∷ optional (codes "id_or_offset") ∷ []
method_spec get_strikes_grid = raster_spec
method_spec get_strikes_raster = raster_spec
method_spec get_strokes_raster = raster_spec
method_spec get_global_strikes_grid =
    required (codes "minute_length")
    ∷ optional (codes "grid_base_length")
    ∷ optional (codes "minute_offset")
    ∷ optional (codes "count_threshold")
    ∷ []
method_spec get_local_strikes_grid =
    required (codes "x")
    ∷ required (codes "y")
    ∷ optional (codes "grid_base_length")
    ∷ optional (codes "minute_length")
    ∷ optional (codes "minute_offset")
    ∷ optional (codes "count_threshold")
    ∷ optional (codes "data_area")
    ∷ []
method_spec get_global_clusters =
    required (codes "minute_length")
    ∷ optional (codes "minute_offset")
    ∷ optional (codes "interval_count")
    ∷ []
method_spec get_local_clusters =
    required (codes "x")
    ∷ required (codes "y")
    ∷ optional (codes "minute_length")
    ∷ optional (codes "minute_offset")
    ∷ optional (codes "data_area")
    ∷ optional (codes "interval_count")
    ∷ []

pub data ArgError : Type 0 where
  invalid_params_type : ArgError
  missing_required : Text → ArgError

abbrev tail : {B : Type 0} → List B → List B
tail [] = []
tail (_ ∷ xs) = xs

module _ {A : Type 0} where
  -- The items, at the first places of `n`.
  unfoldable pub fill_positional : ℕ → List A → List (Option A)
  fill_positional zero items = []
  fill_positional (suc n) [] = none ∷ fill_positional n []
  fill_positional (suc n) (item ∷ items) = some item ∷ fill_positional n items

  -- The fields, each at the place of its parameter; a field behind the last place is a panic.
  unfoldable pub fill_named : ℕ → (Text → Option A) → List Param → Option (List (Option A))
  fill_named n fields [] = some (replicate n none)
  fill_named zero fields ((name, _) ∷ spec) =
      let rest = fill_named zero fields spec in elim (fields name) [ some _ ↦ none | none ↦ rest ]
  fill_named (suc n) fields ((name, _) ∷ spec) =
      Option.map (◌∷◌ (fields name)) (fill_named n fields spec)

  abbrev cons_ok : A → Option (Result (List A) ArgError) → Option (Result (List A) ArgError)
  cons_ok a none = none
  cons_ok a (some (err e)) = some (err e)
  cons_ok a (some (ok as')) = some (ok (a ∷ as'))

  -- The loop that puts in the defaults.
  unfoldable pub put_defaults :
      List (Option A) → List Param → List A → Option (Result (List A) ArgError)
  put_defaults [] spec defaults = some (ok [])
  put_defaults (some a ∷ slots) spec defaults =
      cons_ok a (put_defaults slots (tail spec) (tail defaults))
  put_defaults (none ∷ slots) [] defaults = none
  put_defaults (none ∷ slots) ((name, true) ∷ spec) defaults = some (err (missing_required name))
  put_defaults (none ∷ slots) ((name, false) ∷ spec) [] = none
  put_defaults (none ∷ slots) ((name, false) ∷ spec) (d ∷ defaults) =
      cons_ok d (put_defaults slots spec defaults)

module _ (j : Json) where
  open j use {Value, view, null_value, int_value}

  unfoldable pub method_defaults : Method → List Value
  method_defaults check = []
  method_defaults get_strikes = null_value ∷ int_value (pos 0) ∷ []
  method_defaults get_strikes_grid =
      null_value
      ∷ int_value (pos 10000)
      ∷ int_value (pos 0)
      ∷ int_value (pos 1)
      ∷ int_value (pos 0)
      ∷ []
  method_defaults get_strikes_raster =
      null_value
      ∷ int_value (pos 10000)
      ∷ int_value (pos 0)
      ∷ int_value (pos 1)
      ∷ int_value (pos 0)
      ∷ []
  method_defaults get_strokes_raster =
      null_value
      ∷ int_value (pos 10000)
      ∷ int_value (pos 0)
      ∷ int_value (pos 1)
      ∷ int_value (pos 0)
      ∷ []
  method_defaults get_global_strikes_grid =
      null_value ∷ int_value (pos 10000) ∷ int_value (pos 0) ∷ int_value (pos 0) ∷ []
  method_defaults get_local_strikes_grid =
      null_value
      ∷ null_value
      ∷ int_value (pos 10000)
      ∷ int_value (pos 60)
      ∷ int_value (pos 0)
      ∷ int_value (pos 0)
      ∷ int_value (pos 5)
      ∷ []
  method_defaults get_global_clusters = null_value ∷ int_value (pos 0) ∷ int_value (pos 1) ∷ []
  method_defaults get_local_clusters =
      null_value
      ∷ null_value
      ∷ int_value (pos 60)
      ∷ int_value (pos 0)
      ∷ int_value (pos 5)
      ∷ int_value (pos 1)
      ∷ []

  -- The values that a request gives; an outer `none` is a panic, an inner one a wrong type.
  unfoldable pub given_args : Method → View Value → Option (Option (List (Option Value)))
  unfolding fill_positional fill_named method_defaults method_spec
  given_args m View.null = some (some (replicate (length (method_defaults m)) none))
  given_args m (View.array items) = some (some (fill_positional (length (method_defaults m)) items))
  given_args m (View.object fields) =
      Option.map some (fill_named (length (method_defaults m)) fields (method_spec m))
  given_args m _ = some none

  unfoldable pub resolve_args : Method → Value → Option (Result (List Value) ArgError)
  unfolding given_args put_defaults method_defaults method_spec
  resolve_args m params = elim (given_args m (view params)) [
    | none ↦ none
    | some none ↦ some (err invalid_params_type)
    | some (some slots) ↦ put_defaults slots (method_spec m) (method_defaults m)
  ]
