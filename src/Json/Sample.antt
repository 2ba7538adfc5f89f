-- ===== src/Json/Sample.antt =====
-- JSON values for the tests, with two bodies that parse.
use bo_srv_rs.Common.{Bool, List, [], ◌∷◌, Option, none, some, if◌then◌else◌}
use bo_srv_rs.Common.Int.{ℤ, pos}
use bo_srv_rs.Common.Text.Decimal.{Text, codes, print_ℤ}
use bo_srv_rs.Common.Text.Order.{text_eq}
use bo_srv_rs.Json.{Json, View}

mutual
  pub data Sample : Type 0 where
    nothing : Sample
    truth : Bool → Sample
    whole : ℤ → Sample
    words : Text → Sample
    items : Items → Sample
    fields : Fields → Sample

  pub data Items : Type 0 where
    nil : Items
    cons : Sample → Items → Items

  pub data Fields : Type 0 where
    end : Fields
    field : Text → Sample → Fields → Fields

abbrev pub list_of : Items → List Sample
list_of nil = []
list_of (cons x xs) = x ∷ list_of xs

abbrev pub items_of : List Sample → Items
items_of [] = nil
items_of (x ∷ xs) = cons x (items_of xs)

abbrev pub fields_of : List (Text × Sample) → Fields
fields_of [] = end
fields_of ((name, x) ∷ rest) = field name x (fields_of rest)

abbrev pub field_named : Fields → Text → Option Sample
field_named end name = none
field_named (field key x rest) name = if text_eq key name then some x else field_named rest name

abbrev pub sample_view : Sample → View Sample
sample_view nothing = View.null
sample_view (truth b) = View.boolean b
sample_view (whole n) = View.number (record { as_i64 = some n; truncated = some n })
sample_view (words t) = View.string t
sample_view (items xs) = View.array (list_of xs)
sample_view (fields fs) = View.object (field_named fs)

-- A call of `get_global_clusters` by places, in the second dialect.
abbrev pub call_request : Sample
call_request = fields (
    field (codes "jsonrpc") (words (codes "2.0")) (
      field (codes "id") (whole (pos 7)) (
        field (codes "method") (words (codes "get_global_clusters"))
          (field (codes "params") (items (cons (whole (pos 60)) nil)) end))))

-- A call of `check` with no version and the id 0.
abbrev pub check_request : Sample
check_request =
    fields (field (codes "id") (whole (pos 0)) (field (codes "method") (words (codes "check")) end))

abbrev pub sample_parse : Text → Option Sample
sample_parse t =
    if text_eq t (codes "call")
    then some call_request
    else if text_eq t (codes "check")
    then some check_request
    else none

abbrev pub sample_print : Sample → Text
sample_print nothing = codes "null"
sample_print (whole n) = print_ℤ n
sample_print (words t) = t
sample_print (items (cons x nil)) = codes "[1]"
sample_print _ = codes "{}"

abbrev pub sample_json : Json
sample_json = record {
  Value = Sample;
  view = sample_view;
  null_value = nothing;
  int_value = whole;
  text_value = words;
  array_value = λ xs. items (items_of xs);
  object_value = λ fs. fields (fields_of fs);
  from_str = sample_parse;
  to_string = sample_print;
  parse_f64 = λ t. if text_eq t (codes "2.0") then some (some (pos 2)) else none;
}
