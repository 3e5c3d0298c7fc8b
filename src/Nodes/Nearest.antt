-- ===== src/Nodes/Nearest.antt =====
-- The neighbors of a node.
use pgasus.Common.{
  ℕ, zero, suc, ◌+◌, ◌-◌, ◌≤◌, ◌≡◌, refl, sym, ap, ◌∙◌, Bool, ◌&&◌, Option, none, some, List, [],
  ◌∷◌, ◌++◌, ◌==◌, if◌then◌else◌, ◌>>=◌, length, get_elem?, All, arith, append-nil, append_assoc,
  length-append, Bool-cases, Option-cases, ==_iff, inl, inr,
}
use pgasus.Nodes.{Slot, Node, nodes_from, logical_nodes}
use pgasus.Nodes.Logical.{numbered}
use pgasus.Nodes.Machine.{physical_node, cpu_count, neighbor, collect, nearest_neighbors}
use pgasus.Topology.{NumaNode, Topology, get_node}

-- The first elements of a list.
unfoldable pub take : {A : Type 0} → ℕ → List A → List A
take zero xs = []
take (suc n) [] = []
take (suc n) (x ∷ xs) = x ∷ take n xs

take-nil : {A : Type 0} (n : ℕ) → take {A = A} n [] ≡ []
unfolding take
take-nil zero = refl
take-nil (suc n) = refl

numbered-at :
    (n i : ℕ) (ps : List ℕ) (nd : Node)
    → get_elem? (numbered n ps) i ≡ some nd
    → nd.logical_id ≡ n + i
unfolding numbered
numbered-at n i [] nd h = absurd (ground (arith, h))
numbered-at n zero (p ∷ ps) nd h = ground (arith, h)
numbered-at n (suc i) (p ∷ ps) nd h = omega (arith, numbered-at (suc n) i ps nd h)

nodes_from-has :
    (k id l : ℕ) (r : List Slot)
    → get_elem? r id ≡ some (Slot.logical l)
    → (i : ℕ) × (get_elem? (nodes_from k r) i
        ≡ some (record { physical_id = k + id; logical_id = l }))
unfolding nodes_from
nodes_from-has k id l [] h = absurd (ground (arith, h))
nodes_from-has k zero l (Slot.missing ∷ r) h = absurd (ground (arith, h))
nodes_from-has k zero l (Slot.not_used ∷ r) h = absurd (ground (arith, h))
nodes_from-has k zero l (Slot.logical m ∷ r) h = (0, ground (arith, h))
nodes_from-has k (suc id) l (Slot.missing ∷ r) h =
    let (i, at) = nodes_from-has (suc k) id l r h in (i, ground (arith, at))
nodes_from-has k (suc id) l (Slot.not_used ∷ r) h =
    let (i, at) = nodes_from-has (suc k) id l r h in (i, ground (arith, at))
nodes_from-has k (suc id) l (Slot.logical m ∷ r) h =
    let (i, at) = nodes_from-has (suc k) id l r h in (suc i, ground (arith, at))

-- Where the nodes have the logical ids in order, a logical id is an index.
logical_nodes-at :
    (r : List Slot) (chosen : List ℕ) (id l : ℕ)
    → logical_nodes r ≡ numbered 0 chosen
    → get_elem? r id ≡ some (Slot.logical l)
    → get_elem? (logical_nodes r) l ≡ some (record { physical_id = id; logical_id = l })
unfolding logical_nodes
logical_nodes-at r chosen id l e h =
    let (i, at) = nodes_from-has 0 id l r h in
    let nd : Node = record { physical_id = 0 + id; logical_id = l } in
    let index : l ≡ 0 + i = numbered-at 0 i chosen nd (ap (λ ns. get_elem? ns i) (sym e) ∙ at) in
    let same : i ≡ l = omega (arith, index) in
    let name : 0 + id ≡ id = omega arith in
    ap (get_elem? (nodes_from 0 r)) (sym same)
    ∙ at
    ∙ ap (λ j. some (record { physical_id = j; logical_id = l })) name

module _ (t : Topology) (r : List Slot) where
  -- An id that has an entry in the mapping and a node in the topology.
  abbrev pub IsKnown : ℕ × ℕ → Type 0
  IsKnown p =
      (slot : Slot) × (node : NumaNode) × (get_elem? r p.1 ≡ some slot)
      × (get_node p.1 t ≡ some (some node))

  -- The processors of a node, as far as there is one.
  unfoldable pub cpus_of : ℕ → ℕ
  cpus_of id = elim (get_node id t >>= λ o. o) as (λ _. ℕ) [
    | none ↦ 0
    | some node ↦ length node.cpus
  ]

  -- The configured node of an id, if it has processors where this is wished.
  unfoldable pub candidate : Bool → ℕ → Option Node
  candidate with_cpus_only id = elim (get_elem? r id) as (λ _. Option Node) [
    | none ↦ none
    | some slot ↦ elim slot as (λ _. Option Node) [
      | Slot.missing ↦ none
      | Slot.not_used ↦ none
      | Slot.logical l ↦
          if with_cpus_only && cpus_of id == 0
          then none
          else some (record { physical_id = id; logical_id = l })
    ]
  ]

  -- The candidates, in the order of the list.
  unfoldable pub usable : Bool → List (ℕ × ℕ) → List Node
  usable with_cpus_only [] = []
  usable with_cpus_only (p ∷ ps) = elim (candidate with_cpus_only p.1) as (λ _. List Node) [
    | none ↦ usable with_cpus_only ps
    | some nd ↦ nd ∷ usable with_cpus_only ps
  ]

  module _ (chosen : List ℕ) (ordered : logical_nodes r ≡ numbered 0 chosen) where
    neighbor-slot :
        (w : Bool) (p : ℕ × ℕ) (slot : Slot) (node : NumaNode)
        → get_elem? r p.1 ≡ some slot
        → get_node p.1 t ≡ some (some node)
        → neighbor t r w p.1 ≡ some (candidate w p.1)
    unfolding neighbor candidate cpus_of cpu_count physical_node
    neighbor-slot w p Slot.missing node at there = rw (candidate, at) refl
    neighbor-slot w p Slot.not_used node at there = rw (candidate, at) refl
    neighbor-slot w p (Slot.logical l) node at there =
        rw (candidate, at, logical_nodes-at r chosen p.1 l ordered at, cpus_of, there) refl

    collect-usable :
        (n : ℕ) (w : Bool) (ps : List (ℕ × ℕ)) (acc : List Node)
        → All IsKnown ps
        → length acc ≤ n
        → collect t r n w ps acc ≡ some (acc ++ take (n - length acc) (usable w ps))
    unfolding collect usable take
    collect-usable n w [] acc known le =
        ap (λ xs. some xs) (sym (ap (λ xs. acc ++ xs) (take-nil (n - length acc)) ∙ append-nil acc))
    collect-usable n w ((d, id) ∷ ps) acc ((slot, node, at, there), known) le =
        let found = neighbor-slot w (d, id) slot node at there in
        elim (Bool-cases (length acc == n)) [
          | inl full ↦
              let none_left : n - length acc ≡ 0 = omega (arith, (==_iff (length acc) n).0 full) in
              rw (full, none_left, take) (ap some (sym (append-nil acc)))
          | inr room ↦ elim (Option-cases (candidate w id)) [
            | inl nobody ↦ rw (room, found, usable, nobody) (collect-usable n w ps acc known le)
            | inr (nd, e) ↦
                let longer : length (acc ++ nd ∷ []) ≡ length acc + 1 =
                  length-append acc (nd ∷ []) in
                let left : n - length acc ≡ suc (n - length (acc ++ nd ∷ [])) =
                  ground (arith, longer, room, le) in
                rw (room, found, usable, e, left)
                  (collect-usable n w ps (acc ++ nd ∷ []) known (ground (arith, longer, room, le))
                    ∙ ap (λ xs. some xs)
                        (append_assoc acc (nd ∷ [])
                          (take (n - length (acc ++ nd ∷ [])) (usable w ps))))
          ]
        ]

    -- The neighbors of a valid node are the configured ones (with processors, if this is wished), the nearest first,
    -- and at most as many as asked for, where the nodes have the logical ids in order and the neighbors
    -- exist.
    pub nearest_neighbors-take :
        (n : ℕ) (w : Bool) (nd : Node) (node : NumaNode)
        → get_node nd.physical_id t ≡ some (some node)
        → All IsKnown node.nearest_neighbors
        → nearest_neighbors t r n w (some nd) ≡ some (take n (usable w node.nearest_neighbors))
    unfolding nearest_neighbors physical_node
    nearest_neighbors-take n w nd node at known = rw at (
        collect-usable n w node.nearest_neighbors [] known (omega arith)
        ∙ ap (λ k. some (take k (usable w node.nearest_neighbors))) {x = n - 0} {y = n}
            (omega arith))
