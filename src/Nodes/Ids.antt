-- ===== src/Nodes/Ids.antt =====
-- The ids of a node lead to each other.
use pgasus.Common.{ℕ, zero, suc, ◌+◌, ◌≡◌, refl, some, List, [], ◌∷◌, get_elem?, arith}
use pgasus.Nodes.{pos, Slot, Node, nodes_from, logical_nodes, physical_to_logical_id}

nodes_from-at :
    (k i : ℕ) (r : List Slot) (nd : Node)
    → get_elem? (nodes_from k r) i ≡ some nd
    → (j : ℕ) × (nd.physical_id ≡ k + j) × (get_elem? r j ≡ some (Slot.logical nd.logical_id))
unfolding nodes_from
nodes_from-at k i [] nd h = absurd (ground (arith, h))
nodes_from-at k i (Slot.missing ∷ r) nd h =
    let (j, e, found) = nodes_from-at (suc k) i r nd h in (suc j, omega (arith, e), found)
nodes_from-at k i (Slot.not_used ∷ r) nd h =
    let (j, e, found) = nodes_from-at (suc k) i r nd h in (suc j, omega (arith, e), found)
nodes_from-at k zero (Slot.logical l ∷ r) nd h = (0, ground (arith, h), ground (arith, h))
nodes_from-at k (suc i) (Slot.logical l ∷ r) nd h =
    let (j, e, found) = nodes_from-at (suc k) i r nd h in (suc j, omega (arith, e), found)

-- The physical id of any of the logical nodes leads back to its logical id.
pub physical_to_logical_id-logical_nodes :
    (r : List Slot) (i : ℕ) (nd : Node)
    → get_elem? (logical_nodes r) i ≡ some nd
    → physical_to_logical_id (pos nd.physical_id) r ≡ pos nd.logical_id
unfolding logical_nodes physical_to_logical_id
physical_to_logical_id-logical_nodes r i nd h =
    let (j, e, found) = nodes_from-at 0 i r nd h in
    let here : nd.physical_id ≡ j = omega (arith, e) in
    rw (here, physical_to_logical_id, found) refl
