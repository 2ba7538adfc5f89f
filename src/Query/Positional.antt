-- ===== src/Query/Positional.antt =====
-- The numbering of the placeholders (src/query.rs): `named_to_positional_with_casts` and
-- `Query::parameters` go through the names of an SQL text in the same order.
use bo_srv_rs.Common.{
  ℕ, zero, suc, ◌+◌, true, false, List, [], ◌∷◌, ◌++◌, none, some, ◌≡◌, refl, ap, ◌∙◌, arith, inl,
  inr, Bool-cases, Option-cases, length, append_assoc, if◌then◌else◌,
}
use bo_srv_rs.Common.Text.Decimal.{Text}
use bo_srv_rs.Common.Text.Order.{text_eq, text_eq_iff, contains_text}
use bo_srv_rs.Query.Params.{
  find_param_name, names_from, Index, number_of, or_insert, placeholder, positional_from,
}
use bo_srv_rs.Query.Builder.{unseen}
use bo_srv_rs.Query.Tokens.{Token, plain, named, tokens_from}

-- How many names stand in front of a name.
unfoldable pub place : Text → List Text → ℕ
unfolding text_eq
place name [] = 0
place name (x ∷ xs) = if text_eq x name then 0 else suc (place name xs)

-- The text with every parameter replaced by its place among the names, from 1.
unfoldable pub render : List (Text × Text) → List Text → List Token → Text
unfolding placeholder place
render casts names [] = []
render casts names (plain c ∷ ts) = c ∷ render casts names ts
render casts names (named name ∷ ts) =
    placeholder casts name (suc (place name names)) ++ render casts names ts

-- The index after the names seen, in the order in which they were inserted.
abbrev pub number : ℕ → List Text → Index
number k [] = []
number k (x ∷ xs) = (x, k) ∷ number (suc k) xs

length-number : (k : ℕ) (xs : List Text) → length (number k xs) ≡ length xs
length-number k [] = refl
length-number k (x ∷ xs) = ap suc (length-number (suc k) xs)

number-append :
    (k : ℕ) (xs : List Text) (y : Text)
    → number k xs ++ (y, k + length xs) ∷ [] ≡ number k (xs ++ y ∷ [])
number-append k [] y = ap (λ n. (y, n) ∷ []) (omega arith)
number-append k (x ∷ xs) y =
    ap (◌∷◌ (x, k))
      (ap (λ n. number (suc k) xs ++ (y, n) ∷ []) (omega arith) ∙ number-append (suc k) xs y)

number_of_seen :
    (k : ℕ) (xs : List Text) (name : Text)
    → contains_text xs name ≡ true
    → number_of name (number k xs) ≡ some (k + place name xs)
unfolding number_of place
number_of_seen k [] name h = ground (arith, h)
number_of_seen k (x ∷ xs) name h = ground (arith, h, number_of_seen (suc k) xs name)

number_of_unseen :
    (k : ℕ) (xs : List Text) (name : Text)
    → contains_text xs name ≡ false
    → number_of name (number k xs) ≡ none
unfolding number_of
number_of_unseen k [] name h = refl
number_of_unseen k (x ∷ xs) name h = ground (arith, h, number_of_unseen (suc k) xs name)

place_seen :
    (xs ys : List Text) (name : Text)
    → contains_text xs name ≡ true
    → place name (xs ++ ys) ≡ place name xs
unfolding place
place_seen [] ys name h = ground (arith, h)
place_seen (x ∷ xs) ys name h = ground (arith, h, place_seen xs ys name)

place_unseen :
    (xs ys : List Text) (name : Text)
    → contains_text xs name ≡ false
    → place name (xs ++ name ∷ ys) ≡ length xs
unfolding place
place_unseen [] ys name h = ground (arith, (text_eq_iff name name).1 refl)
place_unseen (x ∷ xs) ys name h = ground (arith, h, place_unseen xs ys name)

-- The names seen, once the next name is.
next : List Text → Text → List Text
next seen name = if contains_text seen name then seen else seen ++ name ∷ []

unseen-next :
    (seen names : List Text) (name : Text)
    → next seen name ++ unseen (next seen name) names ≡ seen ++ unseen seen (name ∷ names)
unfolding next unseen
unseen-next seen names name = elim (Bool-cases (contains_text seen name)) [
  | inl old ↦ rw old refl
  | inr new ↦ rw new (append_assoc seen (name ∷ []) (unseen (seen ++ name ∷ []) names))
]

or_insert-number :
    (seen names : List Text) (name : Text)
    → or_insert name (number 1 seen) (number_of name (number 1 seen))
      ≡ (suc (place name (seen ++ unseen seen (name ∷ names))), number 1 (next seen name))
unfolding next unseen or_insert
or_insert-number seen names name = elim (Bool-cases (contains_text seen name)) [
  | inl old ↦
      rw (number_of_seen 1 seen name old, old, place_seen seen (unseen seen names) name old)
        (ap (λ n. (n, number 1 seen)) (omega arith))
  | inr new ↦
      let at_end = place_unseen seen (unseen (seen ++ name ∷ []) names) name new in
      let grown : number 1 seen ++ (name, length seen + 1) ∷ [] ≡ number 1 (seen ++ name ∷ []) =
        ap (λ n. number 1 seen ++ (name, n) ∷ []) (omega arith) ∙ number-append 1 seen name in
      let place_is : length seen + 1 ≡ suc (length seen) = omega arith in
      rw (number_of_unseen 1 seen name new, new, at_end, length-number 1 seen)
        (ap (λ index. (length seen + 1, index)) grown
          ∙ ap (λ n. (n, number 1 (seen ++ name ∷ []))) place_is)
]

pub positional_from-render :
    (fuel : ℕ) (casts : List (Text × Text)) (seen : List Text) (sql : Text)
    → positional_from fuel casts (number 1 seen) sql
      ≡ render casts (seen ++ unseen seen (names_from fuel sql)) (tokens_from fuel sql)
unfolding positional_from names_from tokens_from render unseen or_insert
positional_from-render zero casts seen sql = refl
positional_from-render (suc fuel) casts seen [] = refl
positional_from-render (suc fuel) casts seen (c ∷ cs) =
    elim (Option-cases (find_param_name (c ∷ cs))) [
      | inl h ↦
          rw (positional_from, names_from, tokens_from, h)
            (ap (◌∷◌ c) (positional_from-render fuel casts seen cs))
      | inr ((rest, name), h) ↦
          let names = names_from fuel rest in
          rw (positional_from, names_from, tokens_from, h, or_insert-number seen names name)
            (ap
              (◌++◌
                (placeholder casts name (suc (place name (seen ++ unseen seen (name ∷ names))))))
              (positional_from-render fuel casts (next seen name) rest
                ∙ ap (λ all. render casts all (tokens_from fuel rest))
                    (unseen-next seen names name)))
    ]
