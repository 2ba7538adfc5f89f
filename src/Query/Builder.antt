-- ===== src/Query/Builder.antt =====
-- `Query` (src/query.rs): the builder, `to_sql`, `parameters` and `to_postgres`. The values of the
-- parameters are of any type, since the builder only moves them.
use mathlib.Core.List.{filter_map}
use bo_srv_rs.Common.{Bool, List, [], ◌∷◌, ◌++◌, Option, none, some, if◌then◌else◌}
use bo_srv_rs.Common.Int.{ℤ}
use bo_srv_rs.Common.Text.Decimal.{Text, codes, print_ℤ}
use bo_srv_rs.Common.Text.Order.{contains_text}
use bo_srv_rs.Common.Text.Trim.{trim_end_matches, is_whitespace}
use bo_srv_rs.Query.Params.{get_last, param_names_in_order, named_to_positional_with_casts}

pub record Query (V : Type 0) : Type 0 where
  pub table_name : Text
  pub columns : List Text
  pub conditions : List Text
  pub groups : List Text
  pub groups_having : List Text
  pub order : List Text
  pub limit : Option ℤ
  pub params : List (Text × V)
  pub casts : List (Text × Text)

-- The separator in front of every piece.
abbrev pub join_rest : Text → List Text → Text
join_rest sep [] = []
join_rest sep (x ∷ rest) = sep ++ (x ++ join_rest sep rest)

-- The pieces, with the separator between them (`slice::join`).
unfoldable pub join : Text → List Text → Text
join sep [] = []
join sep (x ∷ rest) = x ++ join_rest sep rest

-- A clause of the statement, left out when it has no piece.
unfoldable pub clause : Text → Text → List Text → Text
unfolding join
clause keyword sep [] = []
clause keyword sep (x ∷ rest) = keyword ++ (join sep (x ∷ rest) ++ codes " ")

unfoldable pub having : List Text → List Text → Text
unfolding clause
having [] groups_having = []
having (_ ∷ _) groups_having = clause (codes "HAVING ") (codes " AND ") groups_having

unfoldable pub limit_text : Option ℤ → Text
unfolding print_ℤ
limit_text none = []
limit_text (some n) = codes "LIMIT " ++ (print_ℤ n ++ codes " ")

-- The names that are not among those seen, each at its first appearance: the `filter` that
-- inserts into the set `seen`.
unfoldable pub unseen : List Text → List Text → List Text
unseen seen [] = []
unseen seen (name ∷ names) =
    if contains_text seen name then unseen seen names else name ∷ unseen (seen ++ name ∷ []) names

module _ {V : Type 0} where
  unfoldable pub new_query : Text → Query V
  new_query table_name = record {
    table_name = table_name;
    columns = [];
    conditions = [];
    groups = [];
    groups_having = [];
    order = [];
    limit = none;
    params = [];
    casts = [];
  }

  unfoldable pub column : Text → Query V → Query V
  column c q = record q { columns = q.columns ++ c ∷ [] }

  unfoldable pub set_columns : List Text → Query V → Query V
  set_columns cs q = record q { columns = cs }

  unfoldable pub condition : Text → Query V → Query V
  condition c q = record q { conditions = q.conditions ++ c ∷ [] }

  unfoldable pub param : Text → V → Query V → Query V
  param name v q = record q { params = q.params ++ (name, v) ∷ [] }

  unfoldable pub cast : Text → Text → Query V → Query V
  cast name sql_type q = record q { casts = q.casts ++ (name, sql_type) ∷ [] }

  unfoldable pub group_by : Text → Query V → Query V
  group_by g q = record q { groups = q.groups ++ g ∷ [] }

  unfoldable pub group_having : Text → Text → V → Query V → Query V
  group_having c name v q = record q {
    groups_having = q.groups_having ++ c ∷ [];
    params = q.params ++ (name, v) ∷ [];
  }

  unfoldable pub order_by : Text → Bool → Query V → Query V
  order_by c desc q = record q { order = q.order ++ (if desc then c ++ codes " DESC" else c) ∷ [] }

  unfoldable pub set_limit : ℤ → Query V → Query V
  set_limit n q = record q { limit = some n }

  unfoldable pub to_sql : Query V → Text
  unfolding join clause having limit_text trim_end_matches is_whitespace
  to_sql q = trim_end_matches is_whitespace (
      codes "SELECT "
      ++ (join (codes ", ") q.columns
          ++ (codes " FROM "
              ++ (q.table_name
                  ++ (codes " "
                      ++ (clause (codes "WHERE ") (codes " AND ") q.conditions
                          ++ (clause (codes "GROUP BY ") (codes ", ") q.groups
                              ++ (having q.groups q.groups_having
                                  ++ (clause (codes "ORDER BY ") (codes ", ") q.order
                                      ++ limit_text q.limit)))))))))

  unfoldable pub parameters : Query V → List V
  unfolding to_sql param_names_in_order unseen get_last
  parameters q =
      filter_map (λ name. get_last name q.params) (unseen [] (param_names_in_order (to_sql q)))

  unfoldable pub to_postgres : Query V → Text
  unfolding to_sql named_to_positional_with_casts
  to_postgres q = named_to_positional_with_casts (to_sql q) q.casts
