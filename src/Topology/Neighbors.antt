-- ===== src/Topology/Neighbors.antt =====
-- The distances of a node and its neighbors in order.
use mathlib.Core.List.{Perm}
use pgasus.Common.{
  ℕ, zero, suc, ◌≤◌, ◌<◌, ◌≡◌, refl, ap, ◌∙◌, true, false, Option, none, some, List, [], ◌∷◌, ◌++◌,
  ◌==◌, length, get_or, get_elem?, set, get_or-set, length-set, All, subst, map, count, arith,
  append-nil, append_assoc,
}
use pgasus.Common.Sorting.{sort, Sorted, sort-perm, sort-Sorted}
use pgasus.Topology.{NumaNode, resize, read_distances, nearer, measure}
use pgasus.Topology.Vectors.{length-resize}

-- The numbers of a file with the nodes that they are about.
unfoldable pub paired : List ℕ → List ℕ → List (ℕ × ℕ)
paired [] ds = []
paired (c ∷ cs) [] = []
paired (c ∷ cs) (d ∷ ds) = (d, c) ∷ paired cs ds

read_distances-neighbors :
    (cs ds : List ℕ) (n : NumaNode)
    → (read_distances cs ds n).nearest_neighbors ≡ n.nearest_neighbors ++ paired cs ds
unfolding read_distances paired
read_distances-neighbors [] ds n = rw append-nil refl
read_distances-neighbors (c ∷ cs) [] n = rw append-nil refl
read_distances-neighbors (c ∷ cs) (d ∷ ds) n =
    read_distances-neighbors cs ds (record n {
      distances = set n.distances c (some d);
      nearest_neighbors = n.nearest_neighbors ++ (d, c) ∷ [];
    })
    ∙ append_assoc n.nearest_neighbors ((d, c) ∷ []) (paired cs ds)

-- The node after one number.
abbrev with_number : ℕ → ℕ → NumaNode → NumaNode
with_number b d n = record n {
  distances = set n.distances b (some d);
  nearest_neighbors = n.nearest_neighbors ++ (d, b) ∷ [];
}

with_number-bounds :
    (cs : List ℕ) (b d : ℕ) (n : NumaNode)
    → All (λ a. a < length n.distances) cs
    → All (λ a. a < length (with_number b d n).distances) cs
with_number-bounds cs b d n h = rw (length-set n.distances b (some d)) h

-- A node without a number of its own keeps its entry.
distances-kept :
    (cs ds : List ℕ) (n : NumaNode) (c : ℕ)
    → count c cs ≡ 0
    → All (λ b. b < length n.distances) cs
    → get_or (read_distances cs ds n).distances c none ≡ get_or n.distances c none
unfolding read_distances count
distances-kept [] ds n c other bounds = refl
distances-kept (b ∷ cs) [] n c other bounds = refl
distances-kept (b ∷ cs) (d ∷ ds) n c other bounds =
    let differs : (b == c) ≡ false = ground (arith, other) in
    distances-kept cs ds (with_number b d n) c (ground (arith, other))
      (with_number-bounds cs b d n bounds.1)
    ∙ get_or-set n.distances b c (some d) none bounds.0
    ∙ rw differs refl

-- A node's entry is its number.
distances-read :
    (cs ds : List ℕ) (n : NumaNode) (k c d : ℕ)
    → ((a : ℕ) → count a cs ≤ 1)
    → All (λ b. b < length n.distances) cs
    → get_elem? (paired cs ds) k ≡ some (d, c)
    → get_or (read_distances cs ds n).distances c none ≡ some d
unfolding read_distances count paired
distances-read [] ds n k c d once bounds h = absurd (ground (arith, h))
distances-read (b ∷ cs) [] n k c d once bounds h = absurd (ground (arith, h))
distances-read (b ∷ cs) (e ∷ ds) n zero c d once bounds h =
    let at_c : b ≡ c = ground (arith, h) in
    let is_d : e ≡ d = ground (arith, h) in
    let same : (b == c) ≡ true = ground (arith, at_c) in
    distances-kept cs ds (with_number b e n) c (ground (arith, once b, at_c))
      (with_number-bounds cs b e n bounds.1)
    ∙ get_or-set n.distances b c (some e) none bounds.0
    ∙ rw (same, is_d) refl
distances-read (b ∷ cs) (e ∷ ds) n (suc k) c d once bounds h =
    distances-read cs ds (with_number b e n) k c d (λ a. ground (arith, once a))
      (with_number-bounds cs b e n bounds.1) h

pub nearer-asym : (a b : ℕ × ℕ) → nearer a b ≡ true → nearer b a ≡ false
unfolding nearer
nearer-asym a b h = ground arith

pub nearer_trans : (a b c : ℕ × ℕ) → nearer b a ≡ false → nearer c b ≡ false → nearer c a ≡ false
unfolding nearer
nearer_trans a b c h g = ground arith

-- Where the neighbors of a readable file end up.
pub measure-neighbors :
    (ids ds : List ℕ) (n : ℕ) (node : NumaNode)
    → node.nearest_neighbors ≡ []
    → (measure ids n (some ds) node).nearest_neighbors ≡ sort nearer (paired ids ds)
unfolding measure
measure-neighbors ids ds n node no_neighbors =
    let sized = record node { distances = resize n none node.distances } in
    ap (sort nearer)
      (read_distances-neighbors ids ds sized ∙ ap (λ xs. xs ++ paired ids ds) no_neighbors)

entries :
    (f : ℕ → Option ℕ) (ps : List (ℕ × ℕ))
    → ((k c d : ℕ) → get_elem? ps k ≡ some (d, c) → f c ≡ some d)
    → map (λ p. f p.1) ps ≡ map (λ p. some p.0) ps
entries f [] h = refl
entries f (p ∷ ps) h = rw (h 0 p.1 p.0 refl, entries f ps (λ k c d at. h (suc k) c d at)) refl

-- For a node without neighbors so far and a readable file: the neighbors are the nodes with a number, each once, by
-- distance and then by id, and the entry of each of them is its number. The ids are those of the
-- `n` entries, without duplicates.
pub measure-Sorted :
    (ids ds : List ℕ) (n : ℕ) (node : NumaNode)
    → node.nearest_neighbors ≡ []
    → ((a : ℕ) → count a ids ≤ 1)
    → All (λ b. b < n) ids
    → Sorted nearer (measure ids n (some ds) node).nearest_neighbors
      × Perm (measure ids n (some ds) node).nearest_neighbors (paired ids ds)
      × (map (λ p. get_or (measure ids n (some ds) node).distances p.1 none) (paired ids ds)
          ≡ map (λ p. some p.0) (paired ids ds))
unfolding measure
measure-Sorted ids ds n node no_neighbors once bounds =
    let sized = record node { distances = resize n none node.distances } in
    let all_pairs : (read_distances ids ds sized).nearest_neighbors ≡ paired ids ds =
      read_distances-neighbors ids ds sized ∙ ap (λ xs. xs ++ paired ids ds) no_neighbors in
    (
      sort-Sorted nearer nearer-asym nearer_trans (read_distances ids ds sized).nearest_neighbors,
      subst (λ xs. Perm (sort nearer (read_distances ids ds sized).nearest_neighbors) xs) all_pairs
          (sort-perm nearer (read_distances ids ds sized).nearest_neighbors),
      entries (λ c. get_or (read_distances ids ds sized).distances c none) (paired ids ds)
          (λ k c d at.
            distances-read ids ds sized k c d once (rw (length-resize n none node.distances) bounds)
              at),
    )
