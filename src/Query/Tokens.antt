-- ===== src/Query/Tokens.antt =====
-- The tokens of an SQL text (src/query.rs): the parameters that `find_param_name` finds, and the
-- code points between them.
use bo_srv_rs.Common.{
  ℕ, zero, suc, ◌+◌, ◌≤◌, List, [], ◌∷◌, ◌++◌, ◌&&◌, ◌==◌, ==_iff, Option, none, some, ◌≡◌, refl,
  sym, ap, ◌∙◌, arith, inl, inr, Bool-cases, Option-cases, length, length-append,
}
use bo_srv_rs.Common.Text.Decimal.{Text}
use bo_srv_rs.Common.Text.Split.{split_once}
use bo_srv_rs.Query.Params.{find_param_name, close_at, close_param}

-- A code point that is kept, or a named parameter.
pub data Token : Type 0 where
  plain : ℕ → Token
  named : Text → Token

-- The tokens of a text, with its length as the fuel.
unfoldable pub tokens_from : ℕ → Text → List Token
unfolding find_param_name
tokens_from zero sql = []
tokens_from (suc fuel) [] = []
tokens_from (suc fuel) (c ∷ cs) = elim (find_param_name (c ∷ cs)) [
  | none ↦ plain c ∷ tokens_from fuel cs
  | some (rest, name) ↦ named name ∷ tokens_from fuel rest
]

unfoldable pub print_tokens : List Token → Text
print_tokens [] = []
print_tokens (plain c ∷ ts) = c ∷ print_tokens ts
print_tokens (named name ∷ ts) = b'%' ∷ b'(' ∷ (name ++ (b')' ∷ b's' ∷ print_tokens ts))

split_once-parts : (sep : ℕ) (t a b : Text) → split_once sep t ≡ some (a, b) → t ≡ a ++ (sep ∷ b)
unfolding split_once
split_once-parts sep [] a b h = cc
split_once-parts sep (c ∷ cs) a b h = elim (Bool-cases (c == sep)) [
  | inl q ↦
      let at : c ≡ sep = (==_iff c sep).0 q in
      elim (Option-cases (split_once sep cs)) [
        | inl e ↦
            let same : Path (Option (Text × Text)) (some ([], cs)) (some (a, b)) = rw (e, q) at h in
            cc
        | inr ((x, y), e) ↦
            let same : Path (Option (Text × Text)) (some ([], cs)) (some (a, b)) = rw (e, q) at h in
            cc
      ]
  | inr q ↦ elim (Option-cases (split_once sep cs)) [
    | inl e ↦ let bad : Path (Option (Text × Text)) none (some (a, b)) = rw (e, q) at h in cc
    | inr ((x, y), e) ↦
        let same : Path (Option (Text × Text)) (some (c ∷ x, y)) (some (a, b)) = rw (e, q) at h in
        let joined : c ∷ cs ≡ (c ∷ x) ++ (sep ∷ y) = ap (◌∷◌ c) (split_once-parts sep cs x y e) in
        cc
  ]
]

close_param-some :
    (before behind rest name : Text)
    → close_param before behind ≡ some (rest, name)
    → (before ≡ name) × (behind ≡ b's' ∷ rest)
unfolding close_param
close_param-some before [] rest name h = cc
close_param-some before (c ∷ cs) rest name h = elim (Bool-cases (c == b's')) [
  | inl q ↦
      let at : c ≡ b's' = (==_iff c b's').0 q in
      let same : Path (Option (Text × Text)) (some (cs, before)) (some (rest, name)) = rw q at h in
      (cc, cc)
  | inr q ↦ let bad : Path (Option (Text × Text)) none (some (rest, name)) = rw q at h in cc
]

close_at-split :
    (t rest name : Text)
    → close_at (split_once b')' t) ≡ some (rest, name)
    → name ++ (b')' ∷ b's' ∷ rest) ≡ t
unfolding close_at
close_at-split t rest name h = elim (Option-cases (split_once b')' t)) [
  | inl e ↦ let bad : Path (Option (Text × Text)) none (some (rest, name)) = rw e at h in cc
  | inr ((before, behind), e) ↦
      let closed : close_param before behind ≡ some (rest, name) = rw e at h in
      let (same, rest_is) = close_param-some before behind rest name closed in
      let parts = split_once-parts b')' t before behind e in
      sym
        (parts ∙ ap (λ b. before ++ (b')' ∷ b)) rest_is ∙ ap (λ a. a ++ (b')' ∷ b's' ∷ rest)) same)
]

find_param_name-print :
    (sql rest name : Text)
    → find_param_name sql ≡ some (rest, name)
    → b'%' ∷ b'(' ∷ (name ++ (b')' ∷ b's' ∷ rest)) ≡ sql
unfolding find_param_name
find_param_name-print [] rest name h = cc
find_param_name-print (c ∷ []) rest name h = cc
find_param_name-print (c ∷ d ∷ t) rest name h = elim (Bool-cases (c == b'%' && d == b'(')) [
  | inl q ↦
      let opens : (c ≡ b'%') × (d ≡ b'(') = ground (arith, q) in
      let closed : close_at (split_once b')' t) ≡ some (rest, name) = rw q at h in
      let body = close_at-split t rest name closed in
      let first : Path Text (b'%' ∷ b'(' ∷ t) (c ∷ d ∷ t) =
        ap (λ x. x ∷ b'(' ∷ t) (sym opens.0) ∙ ap (λ y. c ∷ y ∷ t) (sym opens.1) in
      ap (λ u. b'%' ∷ b'(' ∷ u) body ∙ first
  | inr q ↦ let bad : Path (Option (Text × Text)) none (some (rest, name)) = rw q at h in cc
]

pub print_tokens_from :
    (fuel : ℕ) (sql : Text) → length sql ≤ fuel → print_tokens (tokens_from fuel sql) ≡ sql
unfolding tokens_from print_tokens
print_tokens_from zero [] h = refl
print_tokens_from zero (c ∷ cs) h = ground (arith, h)
print_tokens_from (suc fuel) [] h = refl
print_tokens_from (suc fuel) (c ∷ cs) h = elim (Option-cases (find_param_name (c ∷ cs))) [
  | inl e ↦ rw (tokens_from, e) (ap (◌∷◌ c) (print_tokens_from fuel cs (omega (arith, h))))
  | inr ((rest, name), e) ↦
      let printed = find_param_name-print (c ∷ cs) rest name e in
      let longer : length (name ++ (b')' ∷ b's' ∷ rest)) ≡ length name + suc (suc (length rest)) =
        length-append name (b')' ∷ b's' ∷ rest) in
      let sizes : suc (suc (length (name ++ (b')' ∷ b's' ∷ rest)))) ≡ suc (length cs) =
        ap length printed in
      let enough : length rest ≤ fuel = omega (arith, h, longer, sizes) in
      rw (tokens_from, e)
        (ap (λ u. b'%' ∷ b'(' ∷ (name ++ (b')' ∷ b's' ∷ u))) (print_tokens_from fuel rest enough)
          ∙ printed)
]
