-- ===== src/Nodes/Ranked.antt =====
-- Which neighbors of a node are found, and in which order.
use pgasus.Common.{
  ℕ, ◌≡◌, Bool, true, false, not, ◌&&◌, ◌||◌, Option, none, some, List, [], ◌∷◌, ◌==◌, ltb,
  if◌then◌else◌, get_elem?, map, sum_by, All,
}
use pgasus.Common.Sorting.{Sorted}
use pgasus.Nodes.{Slot, Node}
use pgasus.Nodes.Nearest.{take, cpus_of}
use pgasus.Topology.{Topology, nearer}

-- How often a neighbor at a distance stands in a list.
unfoldable pub occurrences : (d id : ℕ) → List (ℕ × ℕ) → ℕ
occurrences d id ps = sum_by (λ (p : ℕ × ℕ). if p.0 == d && p.1 == id then 1 else 0) ps

abbrev hit : (d id : ℕ) → ℕ × ℕ → ℕ
hit d id p = if p.0 == d && p.1 == id then 1 else 0

unfoldable pub is_logical : Option Slot → Bool
is_logical none = false
is_logical (some Slot.missing) = false
is_logical (some Slot.not_used) = false
is_logical (some (Slot.logical l)) = true

module _ (t : Topology) (r : List Slot) where
  -- Whether a node is configured, and has processors where this is wished.
  unfoldable pub is_usable : Bool → ℕ → Bool
  is_usable w id = is_logical (get_elem? r id) && (not w || ltb 0 (cpus_of t r id))

  picked : Bool → List (ℕ × ℕ) → List (ℕ × ℕ)
  picked w [] = []
  picked w (p ∷ ps) = let rest = picked w ps in if is_usable w p.1 then p ∷ rest else rest

  -- The logical id of a node is the one of the mapping.
  abbrev pub IsNamed : Node → Type 0
  IsNamed nd = get_elem? r nd.physical_id ≡ some (Slot.logical nd.logical_id)

  -- What a search for at most `m` neighbors finds, where `ps` are the pairs of distance and id that were read for
  -- the node. `ranked` are the usable ones, in order, and the found nodes are the first of them.
  pub record Found (w : Bool) (m : ℕ) (ps : List (ℕ × ℕ)) (found : List Node) : Type 0 where
    pub ranked : List (ℕ × ℕ)
    pub sorted : Sorted nearer ranked
    pub usable_pairs :
        (d id : ℕ) → occurrences d id ranked ≡ (if is_usable w id then occurrences d id ps else 0)
    pub first : map (λ (nd : Node). nd.physical_id) found ≡ map (λ (p : ℕ × ℕ). p.1) (take m ranked)
    pub named : All IsNamed found
