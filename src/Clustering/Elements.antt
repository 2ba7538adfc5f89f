-- ===== src/Clustering/Elements.antt =====
-- Lemmas on the elements of a list by their index: what is taken out or put in, up to order, and
-- what indices select.
use mathlib.Core.List.Perm
use mathlib.Core.List.Memᴰ
use mathlib.Core.Option
use mathlib.Core.List.{Perm, Permᴰ, Mem, Memᴰ}
use mathlib.Core.Logic.{∥∥₁_elim}
use bo_srv_rs.Common.{
  ℕ, zero, suc, ◌<◌, List, [], ◌∷◌, ◌++◌, some, map, ◌≡◌, refl, sym, ap, subst, arith, length,
  get_elem?, All,
}
use bo_srv_rs.Clustering.Shapes.{remove_at, set_at, select}

module _ {A : Type 0} where
  pub remove_at-perm :
      (xs : List A) (i : ℕ) {a : A} → get_elem? xs i ≡ some a → Perm (a ∷ remove_at i xs) xs
  remove_at-perm [] i e = cc
  remove_at-perm (x ∷ xs) zero {a} e = Perm.cons' (cc) (Perm.refl xs)
  remove_at-perm (x ∷ xs) (suc i) {a} e =
      Perm.trans (Perm.swap x a (remove_at i xs)) (Perm.cons x (remove_at-perm xs i e))

  pub set_at-perm :
      (xs : List A) (i : ℕ) (b : A) {a : A}
      → get_elem? xs i ≡ some a
      → Perm (a ∷ set_at i b xs) (b ∷ xs)
  set_at-perm [] i b e = cc
  set_at-perm (x ∷ xs) zero b {a} e =
      Perm.trans (Perm.swap b a xs) (Perm.cons b (Perm.cons' (cc) (Perm.refl xs)))
  set_at-perm (x ∷ xs) (suc i) b {a} e =
      Perm.trans (Perm.swap x a (set_at i b xs))
        (Perm.trans (Perm.cons x (set_at-perm xs i b e)) (Perm.swap b x xs))

  pub get_elem?-remove_at_lt :
      (xs : List A) (i j : ℕ) → i < j → get_elem? (remove_at j xs) i ≡ get_elem? xs i
  get_elem?-remove_at_lt [] i j h = refl
  get_elem?-remove_at_lt (x ∷ xs) i zero h = absurd (omega (arith, h))
  get_elem?-remove_at_lt (x ∷ xs) zero (suc j) h = refl
  get_elem?-remove_at_lt (x ∷ xs) (suc i) (suc j) h =
      get_elem?-remove_at_lt xs i j (omega (arith, h))

  pub length-remove_at :
      (xs : List A) (i : ℕ) {a : A}
      → get_elem? xs i ≡ some a
      → length xs ≡ suc (length (remove_at i xs))
  length-remove_at [] i e = cc
  length-remove_at (x ∷ xs) zero e = refl
  length-remove_at (x ∷ xs) (suc i) e = ap suc (length-remove_at xs i e)

  pub length-set_at : (xs : List A) (i : ℕ) (b : A) → length (set_at i b xs) ≡ length xs
  length-set_at [] i b = refl
  length-set_at (x ∷ xs) zero b = refl
  length-set_at (x ∷ xs) (suc i) b = ap suc (length-set_at xs i b)

  module _ (P : A → Type 0) where
    pub All-get_elem? : (xs : List A) (i : ℕ) {a : A} → get_elem? xs i ≡ some a → All P xs → P a
    All-get_elem? [] i e h = cc
    All-get_elem? (x ∷ xs) zero {a} e h = let same : x ≡ a = cc in subst P same h.0
    All-get_elem? (x ∷ xs) (suc i) e h = All-get_elem? xs i e h.1

    pub All-memᴰ : {a : A} (xs : List A) → All P xs → Memᴰ a xs → P a
    All-memᴰ [] h m = absurd (Memᴰ.not-nil m)
    All-memᴰ (x ∷ xs) h (Memᴰ.head e) = subst P (sym e) h.0
    All-memᴰ (x ∷ xs) h (Memᴰ.tail m) = All-memᴰ xs h.1 m

    pub All-remove_at : (xs : List A) (i : ℕ) → All P xs → All P (remove_at i xs)
    All-remove_at [] i h = tt
    All-remove_at (x ∷ xs) zero h = h.1
    All-remove_at (x ∷ xs) (suc i) h = (h.0, All-remove_at xs i h.1)

    pub All-set_at : (xs : List A) (i : ℕ) (b : A) → P b → All P xs → All P (set_at i b xs)
    All-set_at [] i b hb h = tt
    All-set_at (x ∷ xs) zero b hb h = (hb, h.1)
    All-set_at (x ∷ xs) (suc i) b hb h = (h.0, All-set_at xs i b hb h.1)

  -- What an index selects, where it is in range.
  abbrev pub pick : A → List A → ℕ → A
  pick d points i = Option.get_or (get_elem? points i) d

  pub get_elem?-pick :
      (d : A) (points : List A) (i : ℕ)
      → i < length points
      → get_elem? points i ≡ some (pick d points i)
  get_elem?-pick d [] i h = absurd (omega (arith, h))
  get_elem?-pick d (p ∷ points) zero h = refl
  get_elem?-pick d (p ∷ points) (suc i) h = get_elem?-pick d points i (omega (arith, h))

  pub select-map :
      (d : A) (points : List A) (is : List ℕ)
      → All (λ i. i < length points) is
      → select points is ≡ some (map (pick d points) is)
  unfolding select
  select-map d points [] h = refl
  select-map d points (i ∷ is) h =
      rw (get_elem?-pick d points i h.0, select-map d points is h.1) refl

  module _ (P : A → Type 0) (prop : (a : A) → IsProp (P a)) where
    All-prop : (xs : List A) → IsProp (All P xs)
    All-prop [] = λ a b. refl
    All-prop (x ∷ xs) = λ a b i. (prop x a.0 b.0 i, All-prop xs a.1 b.1 i)

    All-permᴰ : {xs ys : List A} → Permᴰ xs ys → All P xs → All P ys
    All-permᴰ Permᴰ.nil h = h
    All-permᴰ (Permᴰ.cons e p) h = (subst P e h.0, All-permᴰ p h.1)
    All-permᴰ (Permᴰ.swap e f) h = (subst P f h.1.0, (subst P e h.0, h.1.1))
    All-permᴰ (Permᴰ.trans p q) h = All-permᴰ q (All-permᴰ p h)

    pub All-perm : {xs ys : List A} → Perm xs ys → All P xs → All P ys
    All-perm {xs} {ys} p h = ∥∥₁_elim p (All-prop ys) (λ d. All-permᴰ d h)

    pub All-mem : {a : A} (xs : List A) → All P xs → Mem a xs → P a
    All-mem {a} xs h m = ∥∥₁_elim m (prop a) (λ d. All-memᴰ P xs h d)

pub map-append :
    {A B : Type 0} (f : A → B) (xs ys : List A) → map f (xs ++ ys) ≡ map f xs ++ map f ys
map-append f [] ys = refl
map-append f (x ∷ xs) ys = ap (◌∷◌ (f x)) (map-append f xs ys)
