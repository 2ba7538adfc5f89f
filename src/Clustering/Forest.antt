-- ===== src/Clustering/Forest.antt =====
-- The forest of `union_find` (src/clustering/base.rs): `find` ends, gives the root of a number and
-- keeps the roots of all others.
use bo_srv_rs.Common.{
  ℕ, zero, suc, ◌≤◌, ◌<◌, List, [], ◌∷◌, some, ◌≡◌, refl, sym, ap, subst, ◌∙◌, arith, length,
  get_elem?, ◌==◌, if◌then◌else◌, inl, inr, Bool-cases, ==_iff,
}
use bo_srv_rs.Clustering.Shapes.{set_at}
use bo_srv_rs.Clustering.Elements.{pick, get_elem?-pick, length-set_at}
use bo_srv_rs.Clustering.Linkage.{find_root, compress, find}

-- An entry of a vector of numbers.
abbrev pub entry : List ℕ → ℕ → ℕ
entry = pick 0

pub get_elem?-entry : (xs : List ℕ) (i : ℕ) → i < length xs → get_elem? xs i ≡ some (entry xs i)
get_elem?-entry xs i h = get_elem?-pick 0 xs i h

pub entry-set_at :
    (xs : List ℕ) (i j n : ℕ)
    → i < length xs
    → entry (set_at i n xs) j ≡ (if i == j then n else entry xs j)
entry-set_at [] i j n h = absurd (omega (arith, h))
entry-set_at (x ∷ xs) zero zero n h = refl
entry-set_at (x ∷ xs) zero (suc j) n h = ground arith
entry-set_at (x ∷ xs) (suc i) zero n h = ground arith
entry-set_at (x ∷ xs) (suc i) (suc j) n h = ground (arith, entry-set_at xs i j n (omega (arith, h)))

-- The links of the first numbers go to smaller ones, within a class, and end at its root.
pub record IsForest (n : ℕ) (root_of : ℕ → ℕ) (links : List ℕ) : Type 0 where
  pub enough : n ≤ length links
  pub link_le : (k : ℕ) → k < n → entry links k ≤ k
  pub link_root : (k : ℕ) → k < n → root_of (entry links k) ≡ root_of k
  pub root_link : (k : ℕ) → k < n → entry links k ≡ k → root_of k ≡ k
  pub root_fixed : (k : ℕ) → k < n → entry links (root_of k) ≡ root_of k
  pub root_le : (k : ℕ) → k < n → root_of k ≤ k

module _ {n : ℕ} {root_of : ℕ → ℕ} where
  find_root-root_of :
      (fuel : ℕ) (links : List ℕ) (x : ℕ)
      → IsForest n root_of links
      → x < n
      → x < fuel
      → find_root fuel links x ≡ some (root_of x)
  unfolding find_root
  find_root-root_of zero links x h lt enough = absurd (omega (arith, enough))
  find_root-root_of (suc fuel) links x h lt enough =
      let next = entry links x in
      let read = get_elem?-entry links x (omega (arith, lt, h.enough)) in
      elim (Bool-cases (next == x)) [
        | inl stop ↦
            let same = (==_iff next x).0 stop in
            rw (read, find_root, stop) (ap some (sym (h.root_link x lt same)))
        | inr go ↦
            let less : next < x = ground (arith, h.link_le x lt, ==_iff next x, go) in
            rw (read, find_root, go)
              (find_root-root_of fuel links next h (omega (arith, less, lt))
                  (omega (arith, less, enough))
                ∙ ap some (h.link_root x lt))
      ]

  pub root_of-root_of :
      (links : List ℕ) (k : ℕ) → IsForest n root_of links → k < n → root_of (root_of k) ≡ root_of k
  root_of-root_of links k h lt =
      h.root_link (root_of k) (omega (arith, lt, h.root_le k lt)) (h.root_fixed k lt)

  set_at-IsForest :
      (links : List ℕ) (x : ℕ)
      → IsForest n root_of links
      → x < n
      → IsForest n root_of (set_at x (root_of x) links)
  set_at-IsForest links x h lt =
      let inside : x < length links = omega (arith, lt, h.enough) in
      let put = λ (k : ℕ). entry-set_at links x k (root_of x) inside in
      record {
        enough = rw (length-set_at links x (root_of x)) h.enough;
        link_le = λ k k_lt. ground (arith, put k, h.root_le x lt, h.link_le k k_lt);
        link_root =
            λ k k_lt. ground (arith, put k, root_of-root_of links x h lt, h.link_root k k_lt);
        root_link = λ k k_lt e. ground (arith, put k, e, h.root_link k k_lt);
        root_fixed = λ k k_lt.
            ground (arith, put (root_of k), h.root_fixed k k_lt, root_of-root_of links k h k_lt);
        root_le = h.root_le;
      }

  compress-IsForest :
      (fuel : ℕ) (links : List ℕ) (x : ℕ)
      → IsForest n root_of links
      → x < n
      → x < fuel
      → (links' : List ℕ) × (compress fuel links x (root_of x) ≡ some links')
        × IsForest n root_of links'
        × (length links' ≡ length links)
  unfolding compress
  compress-IsForest zero links x h lt enough = absurd (omega (arith, enough))
  compress-IsForest (suc fuel) links x h lt enough =
      let next = entry links x in
      let read = get_elem?-entry links x (omega (arith, lt, h.enough)) in
      elim (Bool-cases (next == root_of x)) [
        | inl stop ↦ (links, rw (read, compress, stop) refl, h, refl)
        | inr go ↦
            let less : next < x =
              ground (arith, h.link_le x lt, ==_iff next (root_of x), h.root_link x lt, go) in
            let set = set_at-IsForest links x h lt in
            let (links', e, forest, same) =
              compress-IsForest fuel (set_at x (root_of x) links) next set (omega (arith, less, lt))
                (omega (arith, less, enough)) in
            let to_root : compress fuel (set_at x (root_of x) links) next (root_of x)
                ≡ some links' =
              subst (λ r. compress fuel (set_at x (root_of x) links) next r ≡ some links')
                (h.link_root x lt) e in
            (
              links',
              rw (read, compress, go) to_root,
              forest,
              same ∙ length-set_at links x (root_of x),
            )
      ]

  pub find-IsForest :
      (links : List ℕ) (x : ℕ)
      → IsForest n root_of links
      → x < n
      → (links' : List ℕ) × (find links x ≡ some (links', root_of x))
        × IsForest n root_of links'
        × (length links' ≡ length links)
  unfolding find
  find-IsForest links x h lt =
      let (links', e, forest, same) = compress-IsForest (suc x) links x h lt (omega arith) in
      (
        links',
        rw (find_root-root_of (suc x) links x h lt (omega arith), find, e) refl,
        forest,
        same,
      )
