-- ===== src/Nodes/Machine.antt =====
-- src/base/node.cpp on top of the topology: the processors and threads of the logical nodes, and their
-- neighbors. The mapping `r` and the topology `t` are the ones that were made at the start. A node
-- that is not valid is `none`; a failed assertion, an access out of range, and a read through a null
-- pointer are `none` of the whole.
use pgasus.Common.{
  ℕ, Bool, true, ◌&&◌, Option, none, some, List, [], ◌∷◌, ◌++◌, ◌==◌, ltb, if◌then◌else◌, ◌>>=◌,
  length, get_elem?,
}
use pgasus.Nodes.{Slot, Node, logical_nodes}
use pgasus.Topology.{NumaNode, Topology, get_node, node_of_cpuid, core_of}

-- `evnThreadCount`: the variable is not set, has no number, or a number.
unfoldable pub env_thread_count : Option (Option ℕ) → ℕ
env_thread_count none = 0
env_thread_count (some none) = 0
env_thread_count (some (some n)) = n

module _ (t : Topology) where
  -- `get_node(physicalId())->`.
  unfoldable pub physical_node : Node → Option NumaNode
  physical_node nd = do node ← get_node nd.physical_id t; node

  unfoldable pub cpuids : Node → Option (List ℕ)
  cpuids nd = do node ← physical_node nd; some node.cpus

  unfoldable pub cpu_count : Node → Option ℕ
  cpu_count nd = do node ← physical_node nd; some (length node.cpus)

  unfoldable pub index_of_cpuid : ℕ → Node → Option (Option ℕ)
  index_of_cpuid id nd = do node ← physical_node nd; some (core_of id node)

  unfoldable pub memory_size : Node → Option ℕ
  memory_size nd = do node ← physical_node nd; some node.memory_size

  -- `logicalNodeThreadCounts`.
  unfoldable pub thread_counts : ℕ → List Node → Option (List ℕ)
  thread_counts env [] = some []
  thread_counts env (nd ∷ nds) = do
    hw_threads ← cpu_count nd
    rest ← thread_counts env nds
    some
        ((if env == 0 then hw_threads else (if ltb hw_threads env then hw_threads else env)) ∷ rest)

  -- `NodeList::logicalNodesWithCPUs`, from the list of all.
  unfoldable pub with_cpus : List Node → Option (List Node)
  with_cpus [] = some []
  with_cpus (nd ∷ nds) = do
    cpus ← cpu_count nd
    rest ← with_cpus nds
    some (if ltb 0 cpus then nd ∷ rest else rest)

  module _ (r : List Slot) where
    -- `Node::threadCount`.
    unfoldable pub thread_count : Option (Option ℕ) → Option Node → Option ℕ
    thread_count env none = some 0
    thread_count env (some nd) = do
      counts ← thread_counts (env_thread_count env) (logical_nodes r)
      get_elem? counts nd.logical_id

    -- `Node::curr`, on the processor `cpu`; asserts that the node is configured.
    unfoldable pub curr : ℕ → Option Node
    curr cpu = do
      node ← node_of_cpuid cpu t
      nd ← node
      slot ← get_elem? r nd.id
      elim slot [
        | Slot.missing ↦ none
        | Slot.not_used ↦ none
        | Slot.logical l ↦ some (record { physical_id = nd.id; logical_id = l })
      ]

    -- `Node::forCpuid`; a node that is not configured is not valid.
    unfoldable pub for_cpuid : ℕ → Option (Option Node)
    for_cpuid cpu = do
      node ← node_of_cpuid cpu t
      nd ← node
      slot ← get_elem? r nd.id
      elim slot [
        | Slot.missing ↦ some none
        | Slot.not_used ↦ some none
        | Slot.logical l ↦ some (some (record { physical_id = nd.id; logical_id = l }))
      ]

    -- A neighbor: nothing where it is not configured, or has no processor and should.
    unfoldable pub neighbor : Bool → ℕ → Option (Option Node)
    neighbor with_cpus_only id = do
      slot ← get_elem? r id
      elim slot [
        | Slot.missing ↦ some none
        | Slot.not_used ↦ some none
        | Slot.logical l ↦ do
          nd ← get_elem? (logical_nodes r) l
          cpus ← cpu_count nd
          some (if with_cpus_only && cpus == 0 then none else some nd)
      ]

    -- The loop of `nearestNeighbors`, with the neighbors so far.
    unfoldable pub collect : ℕ → Bool → List (ℕ × ℕ) → List Node → Option (List Node)
    collect max_count with_cpus_only [] neighbors = some neighbors
    collect max_count with_cpus_only ((d, id) ∷ ps) neighbors =
        let rest = do
          found ← neighbor with_cpus_only id
          collect max_count with_cpus_only ps
              (elim found as (λ _. List Node) [ none ↦ neighbors | some nd ↦ neighbors ++ nd ∷ [] ])
        in if length neighbors == max_count then some neighbors else rest

    -- `Node::nearestNeighbors`, which asserts that the node is valid.
    unfoldable pub nearest_neighbors : ℕ → Bool → Option Node → Option (List Node)
    nearest_neighbors max_count with_cpus_only none = none
    nearest_neighbors max_count with_cpus_only (some nd) = do
      node ← physical_node nd
      collect max_count with_cpus_only node.nearest_neighbors []

    unfoldable pub nearest_neighbors_with_cpus : ℕ → Option Node → Option (List Node)
    nearest_neighbors_with_cpus max_count nd = nearest_neighbors max_count true nd
