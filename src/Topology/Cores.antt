-- ===== src/Topology/Cores.antt =====
-- The topology of a machine that hwloc reports.
use pgasus.Common.{
  ℕ, zero, suc, ◌<◌, ◌≡◌, ◌≢◌, refl, ap, ◌∙◌, Option, none, some, List, [], ◌∷◌, ◌++◌, ◌==◌, ltb,
  length, get_or, get_elem?, set, get_or-set, All, All-append, sum_by, arith, true, Bool-cases, inl,
  inr,
}
use pgasus.Common.Sorting.{sort, All-sort}
use pgasus.Nodes.{pos}
use pgasus.Topology.{
  HwNode, NumaNode, Topology, core_from, core_of, add_nodes, read_distances, measure, measure_all,
  no_nodes, new_topology, get_node, node_of_cpuid, core_of_cpuid,
}
use pgasus.Topology.Vectors.{
  get_or-insert_into_vector, get_elem?-get_or, get_or-assign_cpus_in, core_from-at,
}
use pgasus.Topology.Owners.{
  IsNamed, Present, fresh, added, add_node-added, All-Present, add_nodes-IsFilled, add_nodes-kept,
  add_nodes-append,
}

read_distances-cpus :
    (cs ds : List ℕ) (n : NumaNode)
    → ((read_distances cs ds n).id ≡ n.id) × ((read_distances cs ds n).cpus ≡ n.cpus)
unfolding read_distances
read_distances-cpus [] ds n = (refl, refl)
read_distances-cpus (c ∷ cs) [] n = (refl, refl)
read_distances-cpus (c ∷ cs) (d ∷ ds) n = read_distances-cpus cs ds (record n {
  distances = set n.distances c (some d);
  nearest_neighbors = n.nearest_neighbors ++ (d, c) ∷ [];
})

measure-cpus :
    (ids : List ℕ) (n : ℕ) (file : Option (List ℕ)) (node : NumaNode)
    → ((measure ids n file node).id ≡ node.id) × ((measure ids n file node).cpus ≡ node.cpus)
unfolding measure
measure-cpus ids n none node = (refl, refl)
measure-cpus ids n (some ds) node = read_distances-cpus ids ds (record node { distances = _ })

-- What an entry keeps: its id and its processors.
abbrev Same : NumaNode → List (Option NumaNode) → ℕ → Type 0
Same nd nodes j =
    (nd' : NumaNode) × (get_or nodes j none ≡ some nd') × (nd'.id ≡ nd.id) × (nd'.cpus ≡ nd.cpus)

get_or-some-lt :
    {A : Type 0} (xs : List (Option A)) (i : ℕ) (a : A) → get_or xs i none ≡ some a → i < length xs
get_or-some-lt [] i a h = cc
get_or-some-lt (x ∷ xs) zero a h = omega arith
get_or-some-lt (x ∷ xs) (suc i) a h = omega (arith, get_or-some-lt xs i a h)

set-Same :
    (nodes : List (Option NumaNode)) (i j : ℕ) (old new nd : NumaNode)
    → get_or nodes i none ≡ some old
    → new.id ≡ old.id
    → new.cpus ≡ old.cpus
    → get_or nodes j none ≡ some nd
    → Same nd (set nodes i (some new)) j
set-Same nodes i j old new nd found id cpus at =
    let place = get_or-set nodes i j (some new) none (get_or-some-lt nodes i old found) in
    elim (Bool-cases (i == j)) [
      | inl same ↦
          let here : old ≡ nd = ground (arith, found, at, same) in
          (
            new,
            place ∙ rw same refl,
            id ∙ ap (λ (n : NumaNode). n.id) here,
            cpus ∙ ap (λ (n : NumaNode). n.cpus) here,
          )
      | inr other ↦ (nd, place ∙ rw other at, refl, refl)
    ]

-- The second loop succeeds, and every node keeps its id and its processors.
measure_all-Same :
    (ids all_ids : List ℕ) (files : ℕ → Option (List ℕ)) (nodes : List (Option NumaNode))
    → All (Present nodes) ids
    → (nodes' : List (Option NumaNode)) × (measure_all all_ids files ids nodes ≡ some nodes')
      × ((j : ℕ) (nd : NumaNode) → get_or nodes j none ≡ some nd → Same nd nodes' j)
unfolding measure_all
measure_all-Same [] all_ids files nodes h = (nodes, refl, λ j nd at. (nd, at, refl, refl))
measure_all-Same (id ∷ ids) all_ids files nodes ((old, e), h) =
    let new = measure all_ids (length nodes) (files id) old in
    let (ids_same, cpus_same) = measure-cpus all_ids (length nodes) (files id) old in
    let nodes1 = set nodes id (some new) in
    let once = λ (j : ℕ) (nd : NumaNode) (at : get_or nodes j none ≡ some nd).
      set-Same nodes id j old new nd e ids_same cpus_same at in
    let (nodes', done, later) =
      measure_all-Same ids all_ids files nodes1 (
        All-Present ids nodes nodes1 (λ j p. let (nd', at, _, _) = once j p.0 p.1 in (nd', at))
          h) in
    (
      nodes',
      rw e done,
      λ j nd at.
          let (nd1, at1, id1, cpus1) = once j nd at in
          let (nd2, at2, id2, cpus2) = later j nd1 at1 in (nd2, at2, id2 ∙ id1, cpus2 ∙ cpus1),
    )

-- What is left of the loop after a node.
rest_of :
    (before after : List HwNode) (h : HwNode) (id : ℕ) (t1 t : Topology)
    → h.os_index ≡ pos id
    → add_nodes before no_nodes ≡ some t1
    → add_nodes (before ++ h ∷ after) no_nodes ≡ some t
    → add_nodes after (added id h t1) ≡ some t
rest_of before after h id t1 t e done1 done =
    let split = add_nodes-append before (h ∷ after) no_nodes in
    let step : add_nodes (h ∷ after) t1 ≡ some t = rw (split, done1) at done in
    unfold add_nodes in (rw (add_node-added h t1 id e) at step)

-- Creation succeeds for nodes whose ids are no negative numbers, and counts all their processors.
-- A processor of a node, where no later node has it or the id of the node, belongs to this node: the node has
-- its id and its processors, and `core_of_cpuid` gives the first position of the processor among them.
pub new_topology-core_of :
    (before after : List HwNode) (h : HwNode) (id cpu i : ℕ) (files : ℕ → Option (List ℕ))
    → All IsNamed before
    → All IsNamed after
    → h.os_index ≡ pos id
    → core_from cpu 0 h.cpuset ≡ some i
    → All (λ (g : HwNode). core_from cpu 0 g.cpuset ≡ none) after
    → All (λ (g : HwNode). g.os_index ≢ pos id) after
    → (t : Topology) × (nd : NumaNode) × (new_topology (some (before ++ h ∷ after)) files ≡ some t)
      × (t.total_cpu_count ≡ sum_by (λ (g : HwNode). length g.cpuset) (before ++ h ∷ after))
      × (node_of_cpuid cpu t ≡ some (some nd))
      × (nd.id ≡ id)
      × (nd.cpus ≡ h.cpuset)
      × (core_of_cpuid cpu t ≡ some (some i))
      × (get_elem? nd.cpus i ≡ some cpu)
unfolding new_topology node_of_cpuid core_of_cpuid core_of get_node
new_topology-core_of before after h id cpu i files named_before named_after e at no_cpu no_id =
    let (t1, done1, filled1, _) = add_nodes-IsFilled before no_nodes named_before tt in
    let named = All-append IsNamed before (h ∷ after) named_before ((id, e), named_after) in
    let (t, done, filled, count) = add_nodes-IsFilled (before ++ h ∷ after) no_nodes named tt in
    let rest : add_nodes after (added id h t1) ≡ some t =
      rest_of before after h id t1 t e done1 done in
    let (cpus, nodes) =
      add_nodes-kept after (added id h t1) t cpu id named_after no_cpu no_id rest in
    let owner : get_or t.cpu_to_node cpu none ≡ some id =
      cpus ∙ get_or-assign_cpus_in id h.cpuset t1.cpu_to_node t1.total_cpu_count cpu 0 i at in
    let itself : (id == id) ≡ true = ground arith in
    let node : get_or t.nodes id none ≡ some (fresh id h) =
      nodes ∙ get_or-insert_into_vector t1.nodes id (fresh id h) id ∙ rw itself refl in
    let ids = sort ltb t.node_ids in
    let (nodes', measured, same) =
      measure_all-Same ids ids files t.nodes (All-sort ltb (Present t.nodes) t.node_ids filled) in
    let (nd, found, nd_id, nd_cpus) = same id (fresh id h) node in
    let by_cpu = get_elem?-get_or t.cpu_to_node cpu id owner in
    let by_id = get_elem?-get_or nodes' id nd found in
    let (j, first, there) = core_from-at cpu 0 i h.cpuset at in
    let j_eq : j ≡ i = omega (arith, first) in
    (
      record t { node_ids = ids; nodes = nodes' },
      nd,
      rw (done, measured) refl,
      omega (arith, count),
      rw (by_cpu, by_id) refl,
      nd_id,
      nd_cpus,
      rw (by_cpu, by_id, nd_cpus, at) refl,
      rw (nd_cpus, ← j_eq) there,
    )
