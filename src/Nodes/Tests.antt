-- ===== src/Nodes/Tests.antt =====
-- Nodes 0, 2 and 5, with NUMA_NODES set to "2,5".
use pgasus.Common.{All, ℕ, suc, ◌<◌, ◌≡◌, refl, some, List, [], ◌∷◌, map, get_elem?, count, arith}
use pgasus.Nodes.{
  pos, Scan, Slot, Node, back, get_sorted_elements, get_mapping, logical_nodes, nodes_from, sort,
  insert, less, all_elements, part_elements, scanned, span, count_up,
}
use pgasus.Nodes.Logical.{numbered, Ascending}
use pgasus.Nodes.Chosen.{get_mapping-configured}

abbrev ids : List ℕ
ids = 0 ∷ 2 ∷ 5 ∷ []

abbrev parts : List (List Scan)
parts = (Scan.number (pos 2) ∷ []) ∷ (Scan.number (pos 5) ∷ []) ∷ []

ids-Ascending : Ascending 0 (suc (back 0 (2 ∷ 5 ∷ []))) ids
unfolding Ascending back
ids-Ascending =
    (omega arith, omega arith, (omega arith, omega arith, (omega arith, omega arith, tt)))

wanted : get_sorted_elements parts ≡ map pos (2 ∷ 5 ∷ [])
unfolding get_sorted_elements all_elements part_elements scanned span count_up sort insert less
wanted = refl

wanted-Ascending : Ascending 0 (suc (back 0 (2 ∷ 5 ∷ []))) (2 ∷ 5 ∷ [])
unfolding Ascending back
wanted-Ascending = (omega arith, omega arith, (omega arith, omega arith, tt))

known : All (λ x. 0 < count x ids) (2 ∷ 5 ∷ [])
unfolding count
known = (omega arith, (omega arith, tt))

get_mapping-configured_example :
    (r : List Slot) × (get_mapping ids (some parts) ≡ some r)
    × (logical_nodes r ≡ numbered 0 (2 ∷ 5 ∷ []))
get_mapping-configured_example =
    get_mapping-configured 0 (2 ∷ 5 ∷ []) parts 2 (5 ∷ []) ids-Ascending wanted wanted-Ascending
      known

abbrev mapping : List Slot
mapping = Slot.not_used ∷ Slot.missing ∷ Slot.logical 0 ∷ []

abbrev second : Node
second = record { physical_id = 2; logical_id = 0 }

at_first : get_elem? (logical_nodes mapping) 0 ≡ some second
unfolding logical_nodes nodes_from
at_first = refl
