-- ===== src/Query/Bound.antt =====
-- `Query::to_postgres` and `Query::parameters` (src/query.rs) together: the text that the database
-- receives and the values it receives with it.
use mathlib.Core.List.{filter_map}
use bo_srv_rs.Common.{
  true, false, List, [], ◌∷◌, ◌++◌, none, some, ◌≡◌, refl, ap, ◌∙◌, arith, inl, inr, Bool-cases,
  Option-cases, length, get_elem?, All, ◌||◌, ◌≢◌,
}
use bo_srv_rs.Common.Text.Decimal.{Text}
use bo_srv_rs.Common.Text.Order.{text_eq, text_eq_iff, contains_text}
use bo_srv_rs.Query.Params.{param_names_in_order, get_last, named_to_positional_with_casts}
use bo_srv_rs.Query.Builder.{Query, unseen, to_sql, parameters, to_postgres}
use bo_srv_rs.Query.Tokens.{Token, tokens_from, print_tokens, print_tokens_from}
use bo_srv_rs.Query.Positional.{place, render, positional_from-render}

filter_map-place :
    {V : Type 0} (params : List (Text × V)) (names : List Text) (name : Text) (v : V)
    → All (λ n. get_last n params ≢ none) names
    → contains_text names name ≡ true
    → get_last name params ≡ some v
    → get_elem? (filter_map (λ n. get_last n params) names) (place name names) ≡ some v
unfolding place filter_map
filter_map-place params [] name v given known value = cc
filter_map-place params (x ∷ xs) name v given known value = elim (Bool-cases (text_eq x name)) [
  | inl here ↦
      let found : get_last x params ≡ some v =
        ap (λ n. get_last n params) ((text_eq_iff x name).0 here) ∙ value in
      rw (here, found) refl
  | inr other ↦ elim (Option-cases (get_last x params)) [
    | inl missing ↦ elim (given.0 missing) [ ]
    | inr (u, found) ↦
        let known' : contains_text xs name ≡ true = ground (arith, known, other) in
        rw (other, found) (filter_map-place params xs name v given.1 known' value)
  ]
]

All-unseen : (P : Text → Type 0) (seen names : List Text) → All P names → All P (unseen seen names)
unfolding unseen
All-unseen P seen [] h = tt
All-unseen P seen (n ∷ ns) h = elim (Bool-cases (contains_text seen n)) [
  | inl old ↦ rw old (All-unseen P seen ns h.1)
  | inr new ↦ rw new (h.0, All-unseen P (seen ++ n ∷ []) ns h.1)
]

contains_text-append :
    (seen : List Text) (n name : Text)
    → contains_text (seen ++ n ∷ []) name ≡ contains_text seen name || text_eq n name
contains_text-append [] n name = ground arith
contains_text-append (x ∷ xs) n name = ground (arith, contains_text-append xs n name)

contains_text-unseen :
    (seen names : List Text) (name : Text)
    → contains_text seen name ≡ false
    → contains_text names name ≡ true
    → contains_text (unseen seen names) name ≡ true
unfolding unseen
contains_text-unseen seen [] name fresh known = cc
contains_text-unseen seen (n ∷ ns) name fresh known = elim (Bool-cases (text_eq n name)) [
  | inl here ↦
      let new : contains_text seen n ≡ false =
        ap (contains_text seen) ((text_eq_iff n name).0 here) ∙ fresh in
      rw (new, here) refl
  | inr other ↦
      let known' : contains_text ns name ≡ true = ground (arith, known, other) in
      elim (Bool-cases (contains_text seen n)) [
        | inl old ↦ rw old (contains_text-unseen seen ns name fresh known')
        | inr new ↦
            let fresh' : contains_text (seen ++ n ∷ []) name ≡ false =
              ground (arith, contains_text-append seen n name, fresh, other) in
            rw (new, other) (contains_text-unseen (seen ++ n ∷ []) ns name fresh' known')
      ]
]

-- The names of the SQL text of a query, each once, in the order of their first appearance.
abbrev pub distinct_names : {V : Type 0} → Query V → List Text
distinct_names q = unseen [] (param_names_in_order (to_sql q))

-- The tokens of the SQL text of a query.
abbrev pub tokens : {V : Type 0} → Query V → List Token
tokens q = tokens_from (length (to_sql q)) (to_sql q)

-- The tokens of the SQL text of a query spell that text, so that none of it is left out, and the
-- text for PostgreSQL has the same tokens, each parameter replaced by a placeholder with its
-- cast, whose number, from 1, is the place of its name among the distinct names in the order of
-- their first appearance.
pub to_postgres-render :
    {V : Type 0} (q : Query V)
    → (print_tokens (tokens q) ≡ to_sql q)
      × (to_postgres q ≡ render q.casts (distinct_names q) (tokens q))
unfolding to_postgres named_to_positional_with_casts param_names_in_order
to_postgres-render q = (
  print_tokens_from (length (to_sql q)) (to_sql q) (omega arith),
  positional_from-render (length (to_sql q)) q.casts [] (to_sql q),
)

-- If every parameter that the SQL text of a query names has a value, then the list of values that
-- goes with the placeholders has the value of each such parameter, the one set last, at the place
-- of its name among the distinct names, which is the place that its placeholders are numbered by.
pub parameters-place :
    {V : Type 0} (q : Query V) (name : Text) (v : V)
    → All (λ n. get_last n q.params ≢ none) (param_names_in_order (to_sql q))
    → contains_text (param_names_in_order (to_sql q)) name ≡ true
    → get_last name q.params ≡ some v
    → get_elem? (parameters q) (place name (distinct_names q)) ≡ some v
unfolding parameters
parameters-place q name v given known value =
    filter_map-place q.params (distinct_names q) name v
      (All-unseen (λ n. get_last n q.params ≢ none) [] (param_names_in_order (to_sql q)) given)
      (contains_text-unseen [] (param_names_in_order (to_sql q)) name refl known) value
