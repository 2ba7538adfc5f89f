-- ===== src/Query/Tests.antt =====
-- Runs of the query builder (src/query.rs).
use mathlib.Core.List.{filter_map}
use bo_srv_rs.Common.{ℕ, [], ◌∷◌, ◌≡◌, ◌≢◌, refl, some, none, All, get_elem?}
use bo_srv_rs.Common.Text.Decimal.{Text, codes}
use bo_srv_rs.Query.Params.{get_last, named_to_positional_with_casts, param_names_in_order}
use bo_srv_rs.Query.Builder.{
  Query, new_query, column, condition, param, cast, to_sql, parameters, to_postgres,
}
use bo_srv_rs.Query.Tokens.{print_tokens}
use bo_srv_rs.Query.Positional.{place, render}
use bo_srv_rs.Common.Int.{pos}
use bo_srv_rs.Query.Statements.{
  TimeInterval, int, float, timestamp, strikes_query, global_grid_query, histogram_query,
}
use bo_srv_rs.Query.Values.{query_values}
use bo_srv_rs.Query.Bound.{distinct_names, tokens, to_postgres-render, parameters-place}

abbrev sample : Text
sample = codes "ST_X(%(srid)s), %(a) 100% %(srid)s < %(id)s"

named_to_positional_test :
    named_to_positional_with_casts sample ((codes "srid", codes "integer") ∷ [])
    ≡ codes "ST_X($1::integer), %(a) 100% $1::integer < $2"
unfolding named_to_positional_with_casts
named_to_positional_test = refl

abbrev strikes : Query ℕ
unfolding new_query column condition param cast
strikes = cast (codes "srid") (codes "integer") (
    param (codes "srid") 4326 (
      condition (codes "id > %(id)s")
        (param (codes "id") 7 (column (codes "ST_X(%(srid)s)") (new_query (codes "strikes"))))))

parameters_test : parameters strikes ≡ 4326 ∷ 7 ∷ []
unfolding parameters strikes filter_map
parameters_test = refl

to_postgres_test : to_postgres strikes ≡ codes "SELECT ST_X($1::integer) FROM strikes WHERE id > $2"
unfolding to_postgres strikes
to_postgres_test = refl

to_postgres-render_example :
    (print_tokens (tokens strikes) ≡ to_sql strikes)
    × (to_postgres strikes ≡ render strikes.casts (distinct_names strikes) (tokens strikes))
to_postgres-render_example = to_postgres-render strikes

strikes_given : All (λ n. get_last n strikes.params ≢ none) (param_names_in_order (to_sql strikes))
unfolding strikes to_sql param_names_in_order get_last
strikes_given = (λ h. cc, (λ h. cc, tt))

parameters-place_example :
    get_elem? (parameters strikes) (place (codes "id") (distinct_names strikes)) ≡ some 7
unfolding strikes to_sql param_names_in_order get_last
parameters-place_example = parameters-place strikes (codes "id") 7 strikes_given refl refl

abbrev hour : TimeInterval
hour = record { start = pos 0; end = pos 3600000000000 }

query_values_example :
    (parameters (strikes_query {F = ℕ} hour none) ≡ timestamp hour.start ∷ timestamp hour.end ∷ [])
    × (parameters (global_grid_query {F = ℕ} 2 3 hour (pos 5))
        ≡ float 2 ∷ float 3 ∷ timestamp hour.start ∷ timestamp hour.end ∷ int (pos 5) ∷ [])
    × (parameters (histogram_query {F = ℕ} hour (pos 5) (some (pos 1)) none)
        ≡ timestamp hour.end ∷ int (pos 5) ∷ timestamp hour.start ∷ int (pos 1) ∷ [])
query_values_example = query_values hour none (some (pos 1)) (pos 5) (pos 5) 2 3 none
