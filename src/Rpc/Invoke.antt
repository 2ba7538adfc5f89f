-- ===== src/Rpc/Invoke.antt =====
-- `invoke` (src/jsonrpc.rs): the call of a method with its arguments. `none` is the panic of an
-- index that is out of range.
use mathlib.Core.Option
use bo_srv_rs.Common.{List, Option, some, ◌>>=◌, get_elem?}
use bo_srv_rs.Common.Int.{pos}
use bo_srv_rs.Common.Result.{Result, ok}
use bo_srv_rs.Common.Text.Decimal.{Text}
use bo_srv_rs.Json.{Json}
use bo_srv_rs.Rpc.Methods.{
  Method, check, get_strikes, get_strikes_grid, get_strikes_raster, get_strokes_raster,
  get_global_strikes_grid, get_local_strikes_grid, get_global_clusters, get_local_clusters,
}
use bo_srv_rs.Transport.Headers.{Request}

-- What a method leaves behind: the state of the service, the request, and its answer.
abbrev pub Handled : (J S E : Type 0) → Type 0
Handled J S E = S × (Request × Result J E)

-- The methods of `Service` that `invoke` calls; `get_strikes` changes nothing.
pub record Handlers (J S E : Type 0) : Type 0 where
  pub check_call : S → S × J
  pub strikes : Request → (minute_length id_or_offset : J) → Option J
  pub strikes_grid :
      Request
      → (minute_length grid_base_length minute_offset region count_threshold : J) → S
      → Handled J S E
  pub strikes_raster :
      Request → (minute_length grid_base_length minute_offset region : J) → S → Handled J S E
  pub global_strikes_grid :
      Request
      → (minute_length grid_base_length minute_offset count_threshold : J) → S
      → Handled J S E
  pub local_strikes_grid :
      Request
      → (x y grid_base_length minute_length minute_offset count_threshold data_area : J) → S
      → Handled J S E
  pub global_clusters :
      Request → (minute_length minute_offset interval_count : J) → S → Handled J S E
  pub local_clusters :
      Request → (x y minute_length minute_offset data_area interval_count : J) → S → Handled J S E
  pub error_text : E → Text

module _ (j : Json) {S E : Type 0} (h : Handlers j.Value S E) where
  open j use {Value, null_value, int_value}

  abbrev raster : Request → List Value → S → Option (Handled Value S E)
  raster r args s = do
    a0 ← get_elem? args 0
    a1 ← get_elem? args 1
    a2 ← get_elem? args 2
    a3 ← get_elem? args 3
    some (h.strikes_raster r a0 a1 a2 a3 s)

  unfoldable pub invoke : Request → Method → List Value → S → Option (Handled Value S E)
  invoke r check args s = let (s', v) = h.check_call s in some (s', (r, ok v))
  invoke r get_strikes args s = do
    a0 ← get_elem? args 0
    let a1 = Option.get_or (get_elem? args 1) (int_value (pos 0))
    some (s, (r, ok (Option.get_or (h.strikes r a0 a1) null_value)))
  invoke r get_strikes_grid args s = do
    a0 ← get_elem? args 0
    a1 ← get_elem? args 1
    a2 ← get_elem? args 2
    a3 ← get_elem? args 3
    a4 ← get_elem? args 4
    some (h.strikes_grid r a0 a1 a2 a3 a4 s)
  invoke r get_strikes_raster args s = raster r args s
  invoke r get_strokes_raster args s = raster r args s
  invoke r get_global_strikes_grid args s = do
    a0 ← get_elem? args 0
    a1 ← get_elem? args 1
    a2 ← get_elem? args 2
    a3 ← get_elem? args 3
    some (h.global_strikes_grid r a0 a1 a2 a3 s)
  invoke r get_local_strikes_grid args s = do
    a0 ← get_elem? args 0
    a1 ← get_elem? args 1
    a2 ← get_elem? args 2
    a3 ← get_elem? args 3
    a4 ← get_elem? args 4
    a5 ← get_elem? args 5
    a6 ← get_elem? args 6
    some (h.local_strikes_grid r a0 a1 a2 a3 a4 a5 a6 s)
  invoke r get_global_clusters args s = do
    a0 ← get_elem? args 0
    a1 ← get_elem? args 1
    a2 ← get_elem? args 2
    some (h.global_clusters r a0 a1 a2 s)
  invoke r get_local_clusters args s = do
    a0 ← get_elem? args 0
    a1 ← get_elem? args 1
    a2 ← get_elem? args 2
    a3 ← get_elem? args 3
    a4 ← get_elem? args 4
    a5 ← get_elem? args 5
    some (h.local_clusters r a0 a1 a2 a3 a4 a5 s)
