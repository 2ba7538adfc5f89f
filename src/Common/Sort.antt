-- ===== src/Common/Sort.antt =====
-- The stable sort of Rust's slices: it permutes; by a weak order it sorts; and by a total one its
-- result does not depend on the order of its input.
use mathlib.Core.List.Perm
use mathlib.Core.List.{Perm, Permᴰ}
use mathlib.Core.List
use mathlib.Core.Logic.{∥∥₁_elim}
use bo_srv_rs.Common.{
  ℕ, zero, suc, Bool, true, false, List, [], ◌∷◌, ◌≡◌, refl, ◌∙◌, arith, All, All-take, All-drop,
  inl, inr, Bool-cases, take, drop, if◌then◌else◌,
}

-- `sort_by`: `lt a b` says that `a` comes first. Equal elements keep their order.
module _ {A : Type 0} (lt : A → A → Bool) where
  unfoldable pub insert : A → List A → List A
  insert a [] = a ∷ []
  insert a (b ∷ l) = if lt b a then b ∷ insert a l else a ∷ b ∷ l

  unfoldable pub sort : List A → List A
  unfolding insert
  sort [] = []
  sort (a ∷ l) = insert a (sort l)

-- A comparison that may tie different elements.
pub record IsWeakOrder {A : Type 0} (lt : A → A → Bool) : Type 0 where
  pub asym : (a b : A) → lt a b ≡ true → lt b a ≡ false
  pub neg_trans : (a b c : A) → lt b a ≡ false → lt c b ≡ false → lt c a ≡ false

-- A comparison that orders strictly, and ties only equal elements.
pub record IsOrder {A : Type 0} (lt : A → A → Bool) : Type 0 where
  pub irrefl : (a : A) → lt a a ≡ false
  pub trans : (a b c : A) → lt a b ≡ true → lt b c ≡ true → lt a c ≡ true
  pub total : (a b : A) → lt a b ≡ false → lt b a ≡ false → a ≡ b

-- No element comes before an earlier one.
abbrev pub IsSorted : {A : Type 0} → (A → A → Bool) → List A → Type 0
IsSorted lt [] = Unit
IsSorted lt (a ∷ l) = All (λ b. lt b a ≡ false) l × IsSorted lt l

module _ {A : Type 0} (lt : A → A → Bool) where
  insert-perm : (a : A) (l : List A) → Perm (insert lt a l) (a ∷ l)
  unfolding insert
  insert-perm a [] = Perm.refl (a ∷ [])
  insert-perm a (b ∷ l) = elim (Bool-cases (lt b a)) [
    | inl after ↦ rw (after, insert) (Perm.trans (Perm.cons b (insert-perm a l)) (Perm.swap a b l))
    | inr before ↦ rw (before, insert) (Perm.refl (a ∷ b ∷ l))
  ]

  pub sort-perm : (l : List A) → Perm (sort lt l) l
  unfolding sort
  sort-perm [] = Perm.refl []
  sort-perm (a ∷ l) = Perm.trans (insert-perm a (sort lt l)) (Perm.cons a (sort-perm l))

  All-insert : (P : A → Type 0) (a : A) (l : List A) → P a → All P l → All P (insert lt a l)
  unfolding insert
  All-insert P a [] pa h = (pa, tt)
  All-insert P a (b ∷ l) pa h = elim (Bool-cases (lt b a)) [
    | inl after ↦ rw (after, insert) (h.0, All-insert P a l pa h.1)
    | inr before ↦ rw (before, insert) (pa, h)
  ]

  pub All-sort : (P : A → Type 0) (l : List A) → All P l → All P (sort lt l)
  unfolding sort
  All-sort P [] h = tt
  All-sort P (a ∷ l) h = All-insert P a (sort lt l) h.0 (All-sort P l h.1)

  module _ (h : IsWeakOrder lt) where
    All-neg_trans :
        (a b : A) (l : List A)
        → lt b a ≡ false
        → All (λ c. lt c b ≡ false) l
        → All (λ c. lt c a ≡ false) l
    All-neg_trans a b [] ba w = tt
    All-neg_trans a b (c ∷ l) ba w = (h.neg_trans a b c ba w.0, All-neg_trans a b l ba w.1)

    insert-IsSorted : (a : A) (l : List A) → IsSorted lt l → IsSorted lt (insert lt a l)
    unfolding insert
    insert-IsSorted a [] s = (tt, tt)
    insert-IsSorted a (b ∷ l) s = elim (Bool-cases (lt b a)) [
      | inl after ↦
          rw (after, insert)
            (All-insert (λ c. lt c b ≡ false) a l (h.asym b a after) s.0, insert-IsSorted a l s.1)
      | inr before ↦ rw (before, insert) ((before, All-neg_trans a b l before s.0), s)
    ]

    pub sort-IsSorted : (l : List A) → IsSorted lt (sort lt l)
    unfolding sort
    sort-IsSorted [] = tt
    sort-IsSorted (a ∷ l) = insert-IsSorted a (sort lt l) (sort-IsSorted l)

  module _ (h : IsOrder lt) where
    asym : (a b : A) → lt a b ≡ true → lt b a ≡ false
    asym a b ab = ground (arith, h.trans a b a, h.irrefl a)

    neg_trans : (a b c : A) → lt b a ≡ false → lt c b ≡ false → lt c a ≡ false
    neg_trans a b c ba cb = ground (arith, h.total b c, h.trans b c a)

    pub IsOrder-IsWeakOrder : IsWeakOrder lt
    IsOrder-IsWeakOrder = record { asym = asym; neg_trans = neg_trans }

    insert_comm : (a b : A) (l : List A) → insert lt a (insert lt b l) ≡ insert lt b (insert lt a l)
    unfolding insert
    insert_comm a b [] = ground (arith, h.total a b, asym a b, asym b a)
    insert_comm a b (c ∷ l) =
        ground
          (arith, h.total a b, asym a b, asym b a, h.trans c a b, h.trans c b a, insert_comm a b l)

    sort-permᴰ : {l m : List A} → Permᴰ l m → sort lt l ≡ sort lt m
    unfolding sort
    sort-permᴰ Permᴰ.nil = refl
    sort-permᴰ (Permᴰ.cons e p) = rw (e, sort-permᴰ p)
    sort-permᴰ (Permᴰ.swap {a} {b} {a'} {b'} {l} e f) = rw (e, f) (insert_comm b' a' (sort lt l))
    sort-permᴰ (Permᴰ.trans p q) = sort-permᴰ p ∙ sort-permᴰ q

    -- Permuted inputs are sorted to the same list.
    pub sort_of_perm : IsSet A → (l m : List A) → Perm l m → sort lt l ≡ sort lt m
    sort_of_perm set l m p =
        ∥∥₁_elim p (List.is_set set (sort lt l) (sort lt m)) (λ d. sort-permᴰ d)

  -- In a sorted list nothing behind a cut comes before anything in front of it.
  pub take-drop-sorted :
      (n : ℕ) (l : List A)
      → IsSorted lt l
      → All (λ a. All (λ b. lt b a ≡ false) (drop n l)) (take n l)
  take-drop-sorted zero l s = tt
  take-drop-sorted (suc n) [] s = tt
  take-drop-sorted (suc n) (a ∷ l) s =
      (All-drop (λ b. lt b a ≡ false) n l s.0, take-drop-sorted n l s.1)

  pub take-IsSorted : (n : ℕ) (l : List A) → IsSorted lt l → IsSorted lt (take n l)
  take-IsSorted zero l s = tt
  take-IsSorted (suc n) [] s = tt
  take-IsSorted (suc n) (a ∷ l) s = (All-take (λ b. lt b a ≡ false) n l s.0, take-IsSorted n l s.1)
