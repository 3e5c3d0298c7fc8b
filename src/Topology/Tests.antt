-- ===== src/Topology/Tests.antt =====
-- A machine with the nodes 0 and 2, of two processors each.
use pgasus.Common.{ℕ, ◌≡◌, refl, true, Option, none, some, List, [], ◌∷◌, length, get_elem?, sum_by}
use pgasus.Nodes.{pos, Slot, Node, logical_nodes, nodes_from}
use pgasus.Nodes.Machine.{physical_node, cpu_count, neighbor, collect, nearest_neighbors}
use pgasus.Common.Sorting.{sort, insert}
use pgasus.Topology.{
  HwNode, NumaNode, Topology, core_from, new_topology, node_of_cpuid, core_of_cpuid, get_node,
  measure, read_distances, nearer, resize,
}
use pgasus.Topology.Cores.{new_topology-core_of}

abbrev first : HwNode
first = record { os_index = pos 2; cpuset = 2 ∷ 3 ∷ []; size64 = pos 4096 }

abbrev second : HwNode
second = record { os_index = pos 0; cpuset = 0 ∷ 1 ∷ []; size64 = pos 8192 }

abbrev files : ℕ → Option (List ℕ)
files id = some (10 ∷ 20 ∷ [])

third_core : core_from 3 0 (2 ∷ 3 ∷ []) ≡ some 1
unfolding core_from
third_core = refl

not_there : core_from 3 0 (0 ∷ 1 ∷ []) ≡ none
unfolding core_from
not_there = refl

new_topology-core_of_example :
    (t : Topology) × (nd : NumaNode) × (new_topology (some (first ∷ second ∷ [])) files ≡ some t)
    × (t.total_cpu_count ≡ sum_by (λ (g : HwNode). length g.cpuset) (first ∷ second ∷ []))
    × (node_of_cpuid 3 t ≡ some (some nd))
    × (nd.id ≡ 2)
    × (nd.cpus ≡ 2 ∷ 3 ∷ [])
    × (core_of_cpuid 3 t ≡ some (some 1))
    × (get_elem? nd.cpus 1 ≡ some 3)
new_topology-core_of_example =
    new_topology-core_of [] (second ∷ []) first 2 3 1 files tt ((0, refl), tt) refl third_core
      (not_there, tt) ((λ e. cc), tt)

abbrev blank : NumaNode
blank = record {
  id = 2;
  cpus = 2 ∷ 3 ∷ [];
  distances = [];
  nearest_neighbors = [];
  memory_size = 4096;
}

-- The nodes 2 and 0, with the neighbors of the former.
abbrev near : NumaNode
near = measure (0 ∷ 2 ∷ []) 3 (some (20 ∷ 10 ∷ [])) blank

abbrev far : NumaNode
far = record blank { id = 0; cpus = 0 ∷ 1 ∷ [] }

abbrev machine : Topology
machine = record {
  nodes = some far ∷ none ∷ some near ∷ [];
  node_ids = 0 ∷ 2 ∷ [];
  cpu_to_node = some 0 ∷ some 0 ∷ some 2 ∷ some 2 ∷ [];
  total_cpu_count = 4;
}

abbrev mapping : List Slot
mapping = Slot.logical 0 ∷ Slot.missing ∷ Slot.logical 1 ∷ []

abbrev here : Node
here = record { physical_id = 2; logical_id = 1 }

-- Node 2 itself is nearer than node 0.
found :
    nearest_neighbors machine mapping 5 true (some here)
    ≡ some (here ∷ record { physical_id = 0; logical_id = 0 } ∷ [])
unfolding nearest_neighbors physical_node collect neighbor cpu_count logical_nodes nodes_from
    get_node measure read_distances sort insert nearer resize
found = refl
