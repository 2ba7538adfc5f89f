-- ===== src/Rpc/Slots.antt =====
-- The slots of the parameters of a method (src/jsonrpc.rs): how they are filled by places and by
-- names, and the defaults.
use bo_srv_rs.Common.{
  ℕ, zero, suc, true, false, List, [], ◌∷◌, Option, none, some, ◌≡◌, refl, ap, arith, length,
  replicate,
}
use bo_srv_rs.Common.Result.{Result, ok, err}
use bo_srv_rs.Common.Text.Decimal.{Text}
use bo_srv_rs.Rpc.Methods.{
  Param, ArgError, missing_required, fill_positional, fill_named, put_defaults,
}

module _ {A : Type 0} where
  -- The first required parameter that is not given.
  abbrev pub first_missing : List (Option A) → List Param → Option Text
  first_missing (some _ ∷ slots) (_ ∷ spec) = first_missing slots spec
  first_missing (none ∷ slots) ((name, true) ∷ spec) = some name
  first_missing (none ∷ slots) ((_, false) ∷ spec) = first_missing slots spec
  first_missing _ _ = none

  -- What is given, or else the default.
  abbrev pub merge : List (Option A) → List A → List A
  merge (some a ∷ slots) (_ ∷ defaults) = a ∷ merge slots defaults
  merge (none ∷ slots) (d ∷ defaults) = d ∷ merge slots defaults
  merge _ _ = []

  -- The arguments, or the name of the missing one.
  abbrev pub resolved : Option Text → List A → Result (List A) ArgError
  resolved none args = ok args
  resolved (some name) args = err (missing_required name)

  pub put_defaults-resolved :
      (slots : List (Option A)) (spec : List Param) (defaults : List A)
      → length slots ≡ length spec
      → length slots ≡ length defaults
      → put_defaults slots spec defaults
        ≡ some (resolved (first_missing slots spec) (merge slots defaults))
  unfolding put_defaults
  put_defaults-resolved [] spec defaults hs hd = refl
  put_defaults-resolved (some a ∷ slots) [] defaults hs hd = absurd (omega (arith, hs))
  put_defaults-resolved (some a ∷ slots) (p ∷ spec) [] hs hd = absurd (omega (arith, hd))
  put_defaults-resolved (some a ∷ slots) (p ∷ spec) (d ∷ defaults) hs hd =
      ground (arith, put_defaults-resolved slots spec defaults)
  put_defaults-resolved (none ∷ slots) [] defaults hs hd = absurd (omega (arith, hs))
  put_defaults-resolved (none ∷ slots) ((name, true) ∷ spec) defaults hs hd = refl
  put_defaults-resolved (none ∷ slots) ((name, false) ∷ spec) [] hs hd = absurd (omega (arith, hd))
  put_defaults-resolved (none ∷ slots) ((name, false) ∷ spec) (d ∷ defaults) hs hd =
      ground (arith, put_defaults-resolved slots spec defaults)

  pub length-fill_positional : (n : ℕ) (items : List A) → length (fill_positional n items) ≡ n
  unfolding fill_positional
  length-fill_positional zero items = refl
  length-fill_positional (suc n) [] = ap suc (length-fill_positional n [])
  length-fill_positional (suc n) (x ∷ items) = ap suc (length-fill_positional n items)

  -- The value of each parameter, in their order.
  abbrev pub named_slots : (Text → Option A) → List Param → List (Option A)
  named_slots fields [] = []
  named_slots fields ((name, _) ∷ spec) = fields name ∷ named_slots fields spec

  pub fill_named-slots :
      (fields : Text → Option A) (spec : List Param)
      → fill_named (length spec) fields spec ≡ some (named_slots fields spec)
  unfolding fill_named
  fill_named-slots fields [] = refl
  fill_named-slots fields ((name, b) ∷ spec) = rw (fill_named-slots fields spec) refl

  pub length-named_slots :
      (fields : Text → Option A) (spec : List Param)
      → length (named_slots fields spec) ≡ length spec
  length-named_slots fields [] = refl
  length-named_slots fields (p ∷ spec) = ap suc (length-named_slots fields spec)

  pub length-replicate : (n : ℕ) (a : Option A) → length (replicate n a) ≡ n
  length-replicate zero a = refl
  length-replicate (suc n) a = ap suc (length-replicate n a)

  pub length-merge :
      (slots : List (Option A)) (defaults : List A)
      → length slots ≡ length defaults
      → length (merge slots defaults) ≡ length defaults
  length-merge [] [] h = refl
  length-merge [] (d ∷ defaults) h = absurd (omega (arith, h))
  length-merge (some a ∷ slots) [] h = absurd (omega (arith, h))
  length-merge (none ∷ slots) [] h = absurd (omega (arith, h))
  length-merge (some a ∷ slots) (d ∷ defaults) h = omega (arith, length-merge slots defaults)
  length-merge (none ∷ slots) (d ∷ defaults) h = omega (arith, length-merge slots defaults)

  -- The parameters by their names are the items by their places.
  abbrev pub SameArgs : (Text → Option A) → List Param → List A → Type 0
  SameArgs fields [] items = Unit
  SameArgs fields ((name, _) ∷ spec) [] = (fields name ≡ none) × SameArgs fields spec []
  SameArgs fields ((name, _) ∷ spec) (x ∷ items) =
      (fields name ≡ some x) × SameArgs fields spec items

  pub named_slots-positional :
      (fields : Text → Option A) (spec : List Param) (items : List A)
      → SameArgs fields spec items
      → named_slots fields spec ≡ fill_positional (length spec) items
  unfolding fill_positional
  named_slots-positional fields [] items h = refl
  named_slots-positional fields (p ∷ spec) [] h =
      rw h.0 (ap (◌∷◌ none) (named_slots-positional fields spec [] h.1))
  named_slots-positional fields (p ∷ spec) (x ∷ items) h =
      rw h.0 (ap (◌∷◌ (some x)) (named_slots-positional fields spec items h.1))
