-- ===== src/Json.antt =====
-- What the program reads and builds of the JSON values of serde_json, as an interface.
pub mod Sample
use bo_srv_rs.Common.{ℕ, Bool, List, Option, none, some, ◌>>=◌}
use bo_srv_rs.Common.Int.{ℤ}
use bo_srv_rs.Common.Text.Decimal.{Text}

-- A number as `as_i64`, and as `as_f64` truncated to an `i64`.
pub record Number : Type 0 where
  pub as_i64 : Option ℤ
  pub truncated : Option ℤ

-- The constructors of `serde_json::Value`; an object is its function `get`.
pub data View (J : Type 0) : Type 0 where
  null : View J
  boolean : Bool → View J
  number : Number → View J
  string : Text → View J
  array : List J → View J
  object : (Text → Option J) → View J

-- Values with their view, the builders of `json!`, `from_str` and `to_string`; and what
-- `str::parse::<f64>` makes of a text: a float that is not finite has no whole part.
pub record Json : Type 1 where
  pub Value : Type 0
  pub view : Value → View Value
  pub null_value : Value
  pub int_value : ℤ → Value
  pub text_value : Text → Value
  pub array_value : List Value → Value
  pub object_value : List (Text × Value) → Value
  pub from_str : Text → Option Value
  pub to_string : Value → Text
  pub parse_f64 : Text → Option (Option ℤ)

module _ (j : Json) where
  open j use {Value, view}

  -- `Value::as_str`.
  unfoldable pub as_str : Value → Option Text
  as_str v = elim (view v) [ string t ↦ some t | _ ↦ none ]

  -- `Value::get` by a name.
  unfoldable pub get : Value → Text → Option Value
  get v name = elim (view v) [ object fields ↦ fields name | _ ↦ none ]

  -- `Value::is_object`.
  unfoldable pub is_object : Value → Bool
  is_object v = elim (view v) [ object _ ↦ Bool.true | _ ↦ Bool.false ]
