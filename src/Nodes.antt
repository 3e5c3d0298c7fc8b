-- ===== src/Nodes.antt =====
-- src/base/node.cpp: the nodes that the program may use, which the variable NUMA_NODES chooses, with
-- logical ids from 0.
pub mod Logical
pub mod Chosen
pub mod Ids
pub mod Machine
pub mod Nearest
pub mod Ranked
pub mod Tests
use pgasus.Common.{
  ℕ, zero, suc, ◌+◌, ◌-◌, Bool, true, false, Option, none, some, List, [], ◌∷◌, ◌++◌, ltb,
  if◌then◌else◌, ◌>>=◌, get_elem?, replicate,
}

-- The ids that can stand in NUMA_NODES.
pub data ℤ : Type 0 where
  pos : ℕ → ℤ
  negsuc : ℕ → ℤ

unfoldable pub less : ℤ → ℤ → Bool
less (pos a) (pos b) = ltb a b
less (pos a) (negsuc b) = false
less (negsuc a) (pos b) = true
less (negsuc a) (negsuc b) = ltb b a

-- `std::sort` on ids.
unfoldable pub insert : ℤ → List ℤ → List ℤ
insert a [] = a ∷ []
insert a (b ∷ bs) = let rest = insert a bs in if less b a then b ∷ rest else a ∷ b ∷ bs

unfoldable pub sort : List ℤ → List ℤ
sort [] = []
sort (a ∷ as_) = insert a (sort as_)

-- What `sscanf` with `%d` makes of a string: no number, the end of the string before one, or a number.
pub data Scan : Type 0 where
  no_number : Scan
  at_end : Scan
  number : ℤ → Scan

-- The variable that is -1 before the scan, or nothing for a malformed string.
unfoldable pub scanned : Scan → Option ℤ
scanned Scan.no_number = none
scanned Scan.at_end = some (negsuc 0)
scanned (Scan.number z) = some z

-- The ids from `a` to `b`, by the number of steps.
unfoldable pub succ_int : ℤ → ℤ
succ_int (pos a) = pos (suc a)
succ_int (negsuc zero) = pos 0
succ_int (negsuc (suc a)) = negsuc a

unfoldable pub count_up : ℤ → ℕ → List ℤ
count_up a zero = []
count_up a (suc n) = a ∷ count_up (succ_int a) n

-- How many ids there are from `a` to `b`.
unfoldable pub span : ℤ → ℤ → ℕ
span (pos a) (pos b) = suc b - a
span (pos a) (negsuc b) = 0
span (negsuc a) (pos b) = suc (suc (a + b))
span (negsuc a) (negsuc b) = suc a - b

-- A part of the string between commas, as the scans of its parts between dashes.
unfoldable pub part_elements : List Scan → Option (List ℤ)
part_elements [] = none
part_elements (x ∷ []) = do a ← scanned x; some (count_up a (span a a))
part_elements (x ∷ y ∷ []) = do a ← scanned x; b ← scanned y; some (count_up a (span a b))
part_elements (x ∷ y ∷ z ∷ rest) = do a ← scanned x; some (count_up a (span a a))

unfoldable pub all_elements : List (List Scan) → Option (List ℤ)
all_elements [] = some []
all_elements (part ∷ parts) = do
  here ← part_elements part
  rest ← all_elements parts
  some (here ++ rest)

-- `get_sorted_elements_from_string`, with the string split and scanned.
unfoldable pub get_sorted_elements : List (List Scan) → List ℤ
get_sorted_elements parts = elim (all_elements parts) [ none ↦ [] | some zs ↦ sort zs ]

-- An entry of the mapping: -2, -1, or a logical id.
pub data Slot : Type 0 where
  missing : Slot
  not_used : Slot
  logical : ℕ → Slot

-- An assignment in a vector, which is undefined out of its range.
unfoldable pub assign : List Slot → ℕ → Slot → Option (List Slot)
assign [] i v = none
assign (x ∷ xs) zero v = some (v ∷ xs)
assign (x ∷ xs) (suc i) v = do ys ← assign xs i v; some (x ∷ ys)

-- `setToUseAllNodes`, from a logical id.
unfoldable pub use_all_nodes : List ℕ → ℕ → List Slot → Option (List Slot)
use_all_nodes [] next r = some r
use_all_nodes (p ∷ ps) next r = do
  r' ← assign r p (Slot.logical next)
  use_all_nodes ps (suc next) r'

-- The loop that marks the nodes as not used.
unfoldable pub use_no_nodes : List ℕ → List Slot → Option (List Slot)
use_no_nodes [] r = some r
use_no_nodes (p ∷ ps) r = do r' ← assign r p Slot.not_used; use_no_nodes ps r'

-- The loop over the requested nodes: the mapping, or nothing for a node that does not exist. The outer
-- result is missing where an id is out of the vector's range.
unfoldable pub use_given_nodes : List ℤ → ℕ → List Slot → Option (Option (List Slot))
use_given_nodes [] next r = some (some r)
use_given_nodes (negsuc a ∷ ns) next r = none
use_given_nodes (pos a ∷ ns) next r = do
  slot ← get_elem? r a
  elim slot [
    | missing ↦ some none
    | not_used ↦ do r' ← assign r a (Slot.logical next); use_given_nodes ns (suc next) r'
    | logical l ↦ use_given_nodes ns next r
  ]

-- `back()` of a vector that is not empty.
unfoldable pub back : {A : Type 0} → A → List A → A
back d [] = d
back d (x ∷ xs) = back x xs

-- The mapping that the requested ids lead to, if the configuration is in order.
unfoldable pub configured : List ℕ → ℕ → List ℤ → List Slot → Option (Option (List Slot))
configured ids max_phys_id [] r = some none
configured ids max_phys_id (z ∷ zs) r =
    let given = do r' ← use_no_nodes ids r; use_given_nodes (z ∷ zs) 0 r'
    in if less (pos max_phys_id) (back z zs) then some none else given

-- `getPhysicalToLogicalMapping`, with the sorted ids of the nodes, and what NUMA_NODES has, if it is set.
unfoldable pub get_mapping : List ℕ → Option (List (List Scan)) → Option (List Slot)
get_mapping [] env = some []
get_mapping (p ∷ ps) env =
    let fresh = replicate (suc (back p ps)) Slot.missing in
    let all_nodes = use_all_nodes (p ∷ ps) 0 fresh in
    elim env [
      | none ↦ all_nodes
      | some parts ↦ do
        outcome ← configured (p ∷ ps) (back p ps) (get_sorted_elements parts) fresh
        elim outcome [ none ↦ all_nodes | some r ↦ some r ]
    ]

-- A node that the program uses.
pub record Node : Type 0 where
  pub physical_id : ℕ
  pub logical_id : ℕ

-- `NodeList::logicalNodes`, from the physical id `i` on.
unfoldable pub nodes_from : ℕ → List Slot → List Node
nodes_from i [] = []
nodes_from i (missing ∷ r) = nodes_from (suc i) r
nodes_from i (not_used ∷ r) = nodes_from (suc i) r
nodes_from i (logical l ∷ r) = record { physical_id = i; logical_id = l } ∷ nodes_from (suc i) r

unfoldable pub logical_nodes : List Slot → List Node
logical_nodes r = nodes_from 0 r

-- `NodeList::physicalToLogicalId`.
unfoldable pub physical_to_logical_id : ℤ → List Slot → ℤ
physical_to_logical_id (negsuc a) r = negsuc 0
physical_to_logical_id (pos a) r = elim (get_elem? r a) [
  | none ↦ negsuc 0
  | some slot ↦ elim slot [ missing ↦ negsuc 1 | not_used ↦ negsuc 0 | logical l ↦ pos l ]
]
