-- ===== src/Topology.antt =====
-- src/base/topology.cpp: the NUMA nodes of the machine and their processors. What hwloc and libnuma report,
-- and the numbers in the files of distances, are arguments. hwloc gives every node an id of its own, so an
-- id stands for the pointer to the node.
pub mod Vectors
pub mod Owners
pub mod Cores
pub mod Neighbors
pub mod Tests
use pgasus.Common.{
  ℕ, zero, suc, ◌+◌, Bool, true, false, ◌&&◌, ◌||◌, Option, none, some, List, [], ◌∷◌, ◌++◌, ◌==◌,
  ltb, if◌then◌else◌, ◌>>=◌, length, get_or, get_elem?, set,
}
use pgasus.Common.Sorting.{sort}
use pgasus.Nodes.{ℤ, pos, negsuc}

-- A NUMA node as hwloc has it, with its processors, and its size as `numa_node_size64` has it.
pub record HwNode : Type 0 where
  pub os_index : ℤ
  pub cpuset : List ℕ
  pub size64 : ℤ

-- A distance of -1 is `none`; a neighbor is its distance and its id.
pub record NumaNode : Type 0 where
  pub id : ℕ
  pub cpus : List ℕ
  pub distances : List (Option ℕ)
  pub nearest_neighbors : List (ℕ × ℕ)
  pub memory_size : ℕ

pub record Topology : Type 0 where
  pub nodes : List (Option NumaNode)
  pub node_ids : List ℕ
  pub cpu_to_node : List (Option ℕ)
  pub total_cpu_count : ℕ

-- `vector::resize`, with what the new elements are.
unfoldable pub resize : {A : Type 0} → ℕ → A → List A → List A
resize zero d xs = []
resize (suc n) d [] = d ∷ resize n d []
resize (suc n) d (x ∷ xs) = x ∷ resize n d xs

unfoldable pub insert_into_vector : {A : Type 0} → List (Option A) → ℕ → A → List (Option A)
insert_into_vector vec idx val =
    let wanted = if ltb (suc idx) (length vec) then length vec else suc idx in
    set (resize wanted none vec) idx (some val)

-- The position of the first occurrence, `std::find`.
unfoldable pub core_from : ℕ → ℕ → List ℕ → Option ℕ
core_from cpuid i [] = none
core_from cpuid i (c ∷ cs) =
    let rest = core_from cpuid (suc i) cs in if c == cpuid then some i else rest

-- `NumaNode::core_of`, with `none` for -1.
unfoldable pub core_of : ℕ → NumaNode → Option ℕ
core_of cpuid n = core_from cpuid 0 n.cpus

-- The loop over the processors of a node: `_cpu_to_node` and `_total_cpu_count`.
unfoldable pub assign_cpus : ℕ → List ℕ → List (Option ℕ) → ℕ → List (Option ℕ) × ℕ
assign_cpus id [] vec count = (vec, count)
assign_cpus id (c ∷ cs) vec count = assign_cpus id cs (insert_into_vector vec c id) (suc count)

unfoldable pub clamp_size : ℤ → ℕ
clamp_size (pos n) = n
clamp_size (negsuc n) = 0

-- The body of the loop over the nodes; it throws for a negative id.
unfoldable pub add_node : HwNode → Topology → Option Topology
add_node h t = elim h.os_index [
  | negsuc a ↦ none
  | pos id ↦
      let (cpu_to_node', count) = assign_cpus id h.cpuset t.cpu_to_node t.total_cpu_count in
      let node : NumaNode = record {
        id = id;
        cpus = h.cpuset;
        distances = [];
        nearest_neighbors = [];
        memory_size = clamp_size h.size64;
      } in
      some (record {
        nodes = insert_into_vector t.nodes id node;
        node_ids = t.node_ids ++ id ∷ [];
        cpu_to_node = cpu_to_node';
        total_cpu_count = count;
      })
]

unfoldable pub add_nodes : List HwNode → Topology → Option Topology
add_nodes [] t = some t
add_nodes (h ∷ hs) t = do t' ← add_node h t; add_nodes hs t'

-- The loop over the cousins, with the numbers that can be read from the file.
unfoldable pub read_distances : List ℕ → List ℕ → NumaNode → NumaNode
read_distances [] ds n = n
read_distances (c ∷ cs) [] n = n
read_distances (c ∷ cs) (d ∷ ds) n = read_distances cs ds (record n {
  distances = set n.distances c (some d);
  nearest_neighbors = n.nearest_neighbors ++ (d, c) ∷ [];
})

-- The order of the neighbors: by distance, and then by id.
unfoldable pub nearer : ℕ × ℕ → ℕ × ℕ → Bool
nearer a b = ltb a.0 b.0 || (a.0 == b.0 && ltb a.1 b.1)

-- The body of the second loop, for a node of `n` entries; the file may not be readable.
unfoldable pub measure : List ℕ → ℕ → Option (List ℕ) → NumaNode → NumaNode
measure ids n file node =
    let sized = record node { distances = resize n none node.distances } in
    elim file [
      | none ↦ sized
      | some ds ↦
          let filled = read_distances ids ds sized in
          record filled { nearest_neighbors = sort nearer filled.nearest_neighbors }
    ]

-- The second loop, over the sorted ids; it asserts that each node is there.
unfoldable pub measure_all :
    List ℕ
    → (ℕ → Option (List ℕ))
    → List ℕ
    → List (Option NumaNode)
    → Option (List (Option NumaNode))
measure_all all_ids files [] nodes = some nodes
measure_all all_ids files (id ∷ ids) nodes = do
  node ← get_or nodes id none
  measure_all all_ids files ids
      (set nodes id (some (measure all_ids (length nodes) (files id) node)))

abbrev pub no_nodes : Topology
no_nodes = record { nodes = []; node_ids = []; cpu_to_node = []; total_cpu_count = 0 }

-- `Topology()`, where hwloc reports `hw`, or fails.
unfoldable pub new_topology : Option (List HwNode) → (ℕ → Option (List ℕ)) → Option Topology
new_topology hw files = do
  hs ← hw
  t ← add_nodes hs no_nodes
  let ids = sort ltb t.node_ids
  nodes' ← measure_all ids files ids t.nodes
  some (record t { node_ids = ids; nodes = nodes' })

-- `get_node` asserts that the id is in range, and may return null.
unfoldable pub get_node : ℕ → Topology → Option (Option NumaNode)
get_node n t = get_elem? t.nodes n

-- `node_of_cpuid`, through the id of the node.
unfoldable pub node_of_cpuid : ℕ → Topology → Option (Option NumaNode)
node_of_cpuid cpu t = do
  node ← get_elem? t.cpu_to_node cpu
  elim node [ none ↦ some none | some id ↦ get_node id t ]

-- `cores_on_node`, with `none` for -1.
unfoldable pub cores_on_node : ℕ → Topology → Option (Option ℕ)
cores_on_node n t = do
  node ← get_node n t
  elim node [ none ↦ some none | some nd ↦ some (some (length nd.cpus)) ]

-- `core_of_cpuid` reads through the pointer.
unfoldable pub core_of_cpuid : ℕ → Topology → Option (Option ℕ)
core_of_cpuid cpu t = do
  node ← node_of_cpuid cpu t
  elim node [ none ↦ none | some nd ↦ some (core_of cpu nd) ]
