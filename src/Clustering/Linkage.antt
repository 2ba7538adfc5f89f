-- ===== src/Clustering/Linkage.antt =====
-- The single linkage of points (`single_linkage` of src/clustering/base.rs): a spanning tree by Prim's
-- algorithm, then the merges of its edges in ascending order. The vectors with one entry for each
-- point are one list of vertices. An outer `none` is a panic, or a loop that does not end.
use bo_srv_rs.Common.{
  ℕ, zero, suc, ◌+◌, ◌*◌, Bool, true, false, List, [], ◌∷◌, ◌++◌, Option, none, some, map, length,
  get_elem?, replicate, ltb, ◌==◌, not, ◌&&◌, ◌>>=◌, if◌then◌else◌,
}
use bo_srv_rs.Common.Sort.{sort}
use bo_srv_rs.Clustering.Shapes.{set_at}

pub record Merge (F : Type 0) : Type 0 where
  pub cluster_a : ℕ
  pub cluster_b : ℕ
  pub distance : F
  pub size : ℕ

-- The distances, with the comparison of floats; `is_equal` is `partial_cmp(..).unwrap_or(Equal)`
-- that gives `Equal`, and `is_less` that gives `Less`.
pub record Distances (P F : Type 0) : Type 0 where
  pub zero_distance : F
  pub infinity : F
  pub is_lt : F → F → Bool
  pub is_gt : F → F → Bool
  pub is_less : F → F → Bool
  pub is_equal : F → F → Bool
  pub between : P → P → F

-- The entries of a point in `points`, `in_tree`, `key` and `parent`, where `usize::MAX` is `none`.
pub record Vertex (P F : Type 0) : Type 0 where
  pub point : P
  pub in_tree : Bool
  pub key : F
  pub parent : Option ℕ

abbrev pub Edge : Type 0 → Type 0
Edge F = F × ℕ × ℕ

-- A pair with the smaller number first.
abbrev pub ordered : ℕ → ℕ → ℕ × ℕ
ordered i j = if ltb i j then (i, j) else (j, i)

module _ {P F : Type 0} (d : Distances P F) where
  open d use {zero_distance, infinity, is_lt, is_less, is_equal, between}

  abbrev pub vertices : List P → List (Vertex P F)
  vertices = map (λ p. record { point = p; in_tree = false; key = infinity; parent = none })

  -- `key[0] = 0.0`.
  abbrev pub start : List (Vertex P F) → List (Vertex P F)
  start [] = []
  start (v ∷ vs) = record v { key = zero_distance } ∷ vs

  abbrev pub is_closer : Option (ℕ × F) → Vertex P F → Bool
  is_closer none v = not v.in_tree
  is_closer (some (_, key)) v = not v.in_tree && is_lt v.key key

  -- The search for the vertex to add, with its key, from the vertex with the given number on.
  unfoldable pub nearest : ℕ → Option (ℕ × F) → List (Vertex P F) → Option (ℕ × F)
  nearest i u [] = u
  nearest i u (v ∷ vs) = nearest (suc i) (if is_closer u v then some (i, v.key) else u) vs

  abbrev pub relax : ℕ → P → Vertex P F → Vertex P F
  relax u p v =
      if not v.in_tree && is_lt (between p v.point) v.key
      then record v { key = between p v.point; parent = some u }
      else v

  abbrev pub add_edge : ℕ → Vertex P F → List (Edge F) → List (Edge F)
  add_edge u v edges = elim v.parent [
    | none ↦ edges
    | some p ↦ let (a, b) = ordered p u in edges ++ (v.key, a, b) ∷ []
  ]

  -- One round of the loop over the tree.
  unfoldable pub add_vertex :
      List (Vertex P F) × List (Edge F) → Option (List (Vertex P F) × List (Edge F))
  unfolding nearest
  add_vertex (vs, edges) = do
    (u, _) ← nearest 0 none vs
    v ← get_elem? vs u
    let vs' = set_at u (record v { in_tree = true }) vs
    some (map (relax u v.point) vs', add_edge u v edges)

  unfoldable pub add_vertices :
      ℕ → List (Vertex P F) × List (Edge F) → Option (List (Vertex P F) × List (Edge F))
  unfolding add_vertex
  add_vertices zero s = some s
  add_vertices (suc n) s = add_vertex s >>= λ s'. add_vertices n s'

  -- The order of the edges: by distance, then by their ends.
  abbrev pub edge_lt : Edge F → Edge F → Bool
  edge_lt (e, i, j) (f, k, l) =
      if is_less e f
      then true
      else if is_equal e f
      then if ltb i k then true else (i == k) && ltb j l
      else false

-- The vectors of the merges: `union_find`, `cluster_id`, `size`.
pub record Linkage (F : Type 0) : Type 0 where
  pub union_find : List ℕ
  pub cluster_id : List ℕ
  pub size : List ℕ
  pub next_label : ℕ
  pub merges : List (Merge F)

-- The first loop of `find`, which follows the links to the root. A link goes to a smaller number,
-- so that a number more than rounds is enough.
unfoldable pub find_root : ℕ → List ℕ → ℕ → Option ℕ
find_root zero links x = none
find_root (suc fuel) links x = do
  next ← get_elem? links x
  let rest = find_root fuel links next
  if next == x then some x else rest

-- The second loop, which links what was passed to the root.
unfoldable pub compress : ℕ → List ℕ → ℕ → ℕ → Option (List ℕ)
compress zero links x root = none
compress (suc fuel) links x root = do
  next ← get_elem? links x
  let rest = compress fuel (set_at x root links) next root
  if next == root then some links else rest

unfoldable pub find : List ℕ → ℕ → Option (List ℕ × ℕ)
unfolding find_root compress
find links x = do
  root ← find_root (suc x) links x
  links' ← compress (suc x) links x root
  some (links', root)

module _ {F : Type 0} where
  -- What an edge between two roots does.
  unfoldable pub join_roots : F → List ℕ → ℕ → ℕ → Linkage F → Option (Linkage F)
  join_roots distance links root_i root_j s = do
    id_i ← get_elem? s.cluster_id root_i
    id_j ← get_elem? s.cluster_id root_j
    size_i ← get_elem? s.size root_i
    size_j ← get_elem? s.size root_j
    let (a, b) = ordered id_i id_j
    let (low, high) = ordered root_i root_j
    some record {
      union_find = set_at high low links;
      cluster_id = set_at low s.next_label s.cluster_id;
      size = set_at low (size_i + size_j) s.size;
      next_label = s.next_label + 1;
      merges =
          s.merges
          ++ record { cluster_a = a; cluster_b = b; distance = distance; size = size_i + size_j }
            ∷ [];
    }

  unfoldable pub join_edge : Edge F → Linkage F → Option (Linkage F)
  unfolding find join_roots
  join_edge (distance, i, j) s = do
    (links, root_i) ← find s.union_find i
    (links', root_j) ← find links j
    let same = record s { union_find = links' }
    if root_i == root_j then some same else join_roots distance links' root_i root_j s

  unfoldable pub join_edges : List (Edge F) → Linkage F → Option (Linkage F)
  unfolding join_edge
  join_edges [] s = some s
  join_edges (e ∷ es) s = join_edge e s >>= λ s'. join_edges es s'

-- `(0..n).collect()`, from a number on.
abbrev pub range : ℕ → ℕ → List ℕ
range i zero = []
range i (suc n) = i ∷ range (suc i) n

abbrev pub unlinked : {F : Type 0} → ℕ → Linkage F
unlinked n = record {
  union_find = range 0 (2 * n);
  cluster_id = range 0 (2 * n);
  size = replicate (2 * n) 1;
  next_label = n;
  merges = [];
}

module _ {P F : Type 0} (d : Distances P F) where
  unfoldable pub single_linkage : List P → Option (List (Merge F))
  unfolding add_vertices join_edges
  single_linkage points = if ltb (length points) 2 then some [] else do
    (vs, edges) ← add_vertices d (length points) (start d (vertices d points), [])
    s ← join_edges (sort (edge_lt d) edges) (unlinked (length points))
    some s.merges
