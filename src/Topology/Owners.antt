-- ===== src/Topology/Owners.antt =====
-- Which node a processor belongs to.
use pgasus.Common.{
  ℕ, ◌+◌, ◌≡◌, ◌≢◌, refl, ap, ◌∙◌, Option, none, some, List, [], ◌∷◌, ◌++◌, ◌==◌, ◌>>=◌, length,
  get_or, All, All-append, sum_by, arith, true, false, Bool-cases, Option-cases, inl, inr,
}
use pgasus.Nodes.{pos}
use pgasus.Topology.{
  HwNode, NumaNode, Topology, core_from, assign_cpus, clamp_size, insert_into_vector, add_node,
  add_nodes,
}
use pgasus.Topology.Vectors.{get_or-insert_into_vector, get_or-assign_cpus_out, assign_cpus-count}

-- A node whose id is no negative number.
abbrev pub IsNamed : HwNode → Type 0
IsNamed h = (id : ℕ) × (h.os_index ≡ pos id)

abbrev pub Present : List (Option NumaNode) → ℕ → Type 0
Present nodes id = (nd : NumaNode) × (get_or nodes id none ≡ some nd)

abbrev pub IsFilled : Topology → Type 0
IsFilled t = All (Present t.nodes) t.node_ids

-- The node that the loop makes of one that hwloc reports.
abbrev pub fresh : ℕ → HwNode → NumaNode
fresh id h = record {
  id = id;
  cpus = h.cpuset;
  distances = [];
  nearest_neighbors = [];
  memory_size = clamp_size h.size64;
}

-- A round of the loop, for a node with the id `id`.
abbrev pub added : ℕ → HwNode → Topology → Topology
added id h t =
    let assigned = assign_cpus id h.cpuset t.cpu_to_node t.total_cpu_count in
    record {
      nodes = insert_into_vector t.nodes id (fresh id h);
      node_ids = t.node_ids ++ id ∷ [];
      cpu_to_node = assigned.0;
      total_cpu_count = assigned.1;
    }

pub add_node-added :
    (h : HwNode) (t : Topology) (id : ℕ) → h.os_index ≡ pos id → add_node h t ≡ some (added id h t)
unfolding add_node
add_node-added h t id e = rw e refl

pub All-Present :
    (ids : List ℕ) (nodes nodes' : List (Option NumaNode))
    → ((j : ℕ) → Present nodes j → Present nodes' j)
    → All (Present nodes) ids
    → All (Present nodes') ids
All-Present [] nodes nodes' f h = tt
All-Present (j ∷ js) nodes nodes' f h = (f j h.0, All-Present js nodes nodes' f h.1)

Present-insert :
    (nodes : List (Option NumaNode)) (id j : ℕ) (nd : NumaNode)
    → Present nodes j
    → Present (insert_into_vector nodes id nd) j
Present-insert nodes id j nd (old, e) = elim (Bool-cases (id == j)) [
  | inl same ↦ (nd, get_or-insert_into_vector nodes id nd j ∙ rw same refl)
  | inr other ↦ (old, get_or-insert_into_vector nodes id nd j ∙ rw other e)
]

pub added-IsFilled : (id : ℕ) (h : HwNode) (t : Topology) → IsFilled t → IsFilled (added id h t)
added-IsFilled id h t filled =
    let same : (id == id) ≡ true = ground arith in
    All-append (Present (added id h t).nodes) t.node_ids (id ∷ [])
      (All-Present t.node_ids t.nodes (added id h t).nodes
        (λ j p. Present-insert t.nodes id j (fresh id h) p) filled)
      ((fresh id h, get_or-insert_into_vector t.nodes id (fresh id h) id ∙ rw same refl), tt)

-- The loop over the nodes succeeds, and counts the processors.
pub add_nodes-IsFilled :
    (hs : List HwNode) (t : Topology)
    → All IsNamed hs
    → IsFilled t
    → (t' : Topology) × (add_nodes hs t ≡ some t')
      × IsFilled t'
      × (t'.total_cpu_count ≡ sum_by (λ (h : HwNode). length h.cpuset) hs + t.total_cpu_count)
unfolding add_nodes sum_by
add_nodes-IsFilled [] t named filled = (t, refl, filled, omega arith)
add_nodes-IsFilled (h ∷ hs) t ((id, e), named) filled =
    let (t', done, filled', count) =
      add_nodes-IsFilled hs (added id h t) named (added-IsFilled id h t filled) in
    (
      t',
      rw (add_node-added h t id e) done,
      filled',
      omega (arith, count, assign_cpus-count id h.cpuset t.cpu_to_node t.total_cpu_count),
    )

-- Nodes without the processor and the id change nothing for these.
pub add_nodes-kept :
    (hs : List HwNode) (t t' : Topology) (cpu id : ℕ)
    → All IsNamed hs
    → All (λ (h : HwNode). core_from cpu 0 h.cpuset ≡ none) hs
    → All (λ (h : HwNode). h.os_index ≢ pos id) hs
    → add_nodes hs t ≡ some t'
    → (get_or t'.cpu_to_node cpu none ≡ get_or t.cpu_to_node cpu none)
      × (get_or t'.nodes id none ≡ get_or t.nodes id none)
unfolding add_nodes
add_nodes-kept [] t t' cpu id named no_cpu no_id h = (ground (arith, h), ground (arith, h))
add_nodes-kept (g ∷ hs) t t' cpu id ((a, e), named) no_cpu no_id h =
    let step = add_node-added g t a e in
    let (cpus, nodes) =
      add_nodes-kept hs (added a g t) t' cpu id named no_cpu.1 no_id.1 (rw step at h) in
    let differs : (a == id) ≡ false = ground (arith, λ (x : a ≡ id). no_id.0 (e ∙ ap pos x)) in
    (
      cpus ∙ get_or-assign_cpus_out a g.cpuset t.cpu_to_node t.total_cpu_count cpu 0 no_cpu.0,
      nodes ∙ get_or-insert_into_vector t.nodes a (fresh a g) id ∙ rw differs refl,
    )

pub add_nodes-append :
    (xs ys : List HwNode) (t : Topology)
    → add_nodes (xs ++ ys) t ≡ (add_nodes xs t >>= add_nodes ys)
unfolding add_nodes
add_nodes-append [] ys t = refl
add_nodes-append (x ∷ xs) ys t = elim (Option-cases (add_node x t)) [
  | inl fails ↦ rw (fails) refl
  | inr (t', done) ↦ rw (done) (add_nodes-append xs ys t')
]
