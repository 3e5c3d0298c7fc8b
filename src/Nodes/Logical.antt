-- ===== src/Nodes/Logical.antt =====
-- The mapping gives the chosen nodes the logical ids from 0 on, in the order of their physical ids.
use pgasus.Common.{
  ℕ, zero, suc, ◌+◌, ◌≤◌, ◌<◌, ◌≡◌, refl, sym, ◌∙◌, ap, subst, false, some, List, [], ◌∷◌, ◌++◌,
  length, get_or, set, length-set, get_or-set, arith, append-nil, append_assoc, ◌==◌,
}
use pgasus.Nodes.{Slot, assign, use_all_nodes, Node, nodes_from, logical_nodes}

-- The nodes that the ids `ps` stand for, with logical ids from `n`.
unfoldable pub numbered : ℕ → List ℕ → List Node
numbered n [] = []
numbered n (p ∷ ps) = record { physical_id = p; logical_id = n } ∷ numbered (suc n) ps

-- The ids are ascending, above `low` and below `size`.
unfoldable pub Ascending : (low size : ℕ) → List ℕ → Type 0
Ascending low size [] = Unit
Ascending low size (p ∷ ps) = (low ≤ p) × (p < size) × Ascending (suc p) size ps

-- No node has a logical id.
abbrev pub Idle : Slot → Type 0
Idle Slot.missing = Unit
Idle Slot.not_used = Unit
Idle (Slot.logical l) = ⊥

abbrev pub IdleFrom : ℕ → List Slot → Type 0
IdleFrom x r = (j : ℕ) → x ≤ j → Idle (get_or r j Slot.missing)

pub assign_lem : (r : List Slot) (i : ℕ) (v : Slot) → i < length r → assign r i v ≡ some (set r i v)
unfolding assign
assign_lem [] i v h = absurd (omega arith)
assign_lem (x ∷ r) zero v h = refl
assign_lem (x ∷ r) (suc i) v h = rw (assign_lem r i v (omega arith)) refl

pub nodes_from-idle : (i : ℕ) (r : List Slot) → IdleFrom 0 r → nodes_from i r ≡ []
unfolding nodes_from
nodes_from-idle i [] idle = refl
nodes_from-idle i (Slot.missing ∷ r) idle =
    nodes_from-idle (suc i) r (λ j h. idle (suc j) (omega arith))
nodes_from-idle i (Slot.not_used ∷ r) idle =
    nodes_from-idle (suc i) r (λ j h. idle (suc j) (omega arith))
nodes_from-idle i (Slot.logical l ∷ r) idle = absurd (idle 0 (omega arith))

abbrev node : ℕ → ℕ → Node
node p l = record { physical_id = p; logical_id = l }

shifted :
    (i x l : ℕ) (ns : List Node) → ns ++ (node (suc i + x) l ∷ []) ≡ ns ++ (node (i + suc x) l ∷ [])
shifted i x l ns = let p : suc i + x ≡ i + suc x = omega arith in ap (λ q. ns ++ (node q l ∷ [])) p

-- A new logical id behind all others.
nodes_from-set :
    (i x l : ℕ) (r : List Slot)
    → x < length r
    → IdleFrom x r
    → nodes_from i (set r x (Slot.logical l))
      ≡ nodes_from i r ++ (record { physical_id = i + x; logical_id = l } ∷ [])
unfolding nodes_from
nodes_from-set i x l [] h idle = absurd (omega arith)
nodes_from-set i zero l (s ∷ r) h idle =
    let rest : nodes_from (suc i) r ≡ [] =
      nodes_from-idle (suc i) r (λ j g. idle (suc j) (omega arith)) in
    let here : i ≡ i + 0 = omega arith in
    rw (rest, nodes_from-idle i (s ∷ r) idle) (ap (λ p. node p l ∷ []) here)
nodes_from-set i (suc x) l (Slot.missing ∷ r) h idle =
    nodes_from-set (suc i) x l r (omega arith) (λ j g. idle (suc j) (omega arith))
    ∙ shifted i x l (nodes_from (suc i) r)
nodes_from-set i (suc x) l (Slot.not_used ∷ r) h idle =
    nodes_from-set (suc i) x l r (omega arith) (λ j g. idle (suc j) (omega arith))
    ∙ shifted i x l (nodes_from (suc i) r)
nodes_from-set i (suc x) l (Slot.logical y ∷ r) h idle =
    ap (λ ns. node i y ∷ ns)
      (nodes_from-set (suc i) x l r (omega arith) (λ j g. idle (suc j) (omega arith))
        ∙ shifted i x l (nodes_from (suc i) r))

pub set-IdleFrom :
    (r : List Slot) (x : ℕ) (v : Slot) → x < length r → IdleFrom x r → IdleFrom (suc x) (set r x v)
set-IdleFrom r x v h idle j g =
    let other : (x == j) ≡ false = ground arith in
    subst Idle (sym (get_or-set r x j v Slot.missing h ∙ rw other refl)) (idle j (omega arith))

-- One assignment of a logical id, and what the rest makes of it.
pub logical_step :
    (r : List Slot) (x n : ℕ) (ps : List ℕ) (r' : List Slot)
    → x < length r
    → IdleFrom x r
    → logical_nodes r' ≡ logical_nodes (set r x (Slot.logical n)) ++ numbered (suc n) ps
    → logical_nodes r' ≡ logical_nodes r ++ numbered n (x ∷ ps)
unfolding logical_nodes numbered
logical_step r x n ps r' h idle e =
    e
    ∙ ap (λ ns. ns ++ numbered (suc n) ps) (nodes_from-set 0 x n r h idle ∙ at_x)
    ∙ append_assoc (nodes_from 0 r) (node x n ∷ []) (numbered (suc n) ps)
  where
    at_x : nodes_from 0 r ++ (node (0 + x) n ∷ []) ≡ nodes_from 0 r ++ (node x n ∷ [])
    at_x = let p : 0 + x ≡ x = omega arith in ap (λ q. nodes_from 0 r ++ (node q n ∷ [])) p

pub use_all_nodes-numbered :
    (ps : List ℕ) (low n : ℕ) (r : List Slot)
    → Ascending low (length r) ps
    → IdleFrom low r
    → (r' : List Slot) × (use_all_nodes ps n r ≡ some r')
      × (logical_nodes r' ≡ logical_nodes r ++ numbered n ps)
unfolding use_all_nodes Ascending numbered
use_all_nodes-numbered [] low n r a idle = (r, refl, sym (append-nil (logical_nodes r)))
use_all_nodes-numbered (p ∷ ps) low n r (le, lt, a) idle =
    let from_p : IdleFrom p r = λ j g. idle j (omega (arith, le, g)) in
    let (r', e, nodes) =
      use_all_nodes-numbered ps (suc p) (suc n) (set r p (Slot.logical n))
        (subst (λ size. Ascending (suc p) size ps) (sym (length-set r p (Slot.logical n))) a)
        (set-IdleFrom r p (Slot.logical n) lt from_p) in
    (r', rw (assign_lem r p (Slot.logical n) lt) e, logical_step r p n ps r' lt from_p nodes)
