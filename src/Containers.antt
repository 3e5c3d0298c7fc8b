-- ===== src/Containers.antt =====
-- include/PGASUS/hashtable/containers.hpp, the adapters for standard containers: StdIteratorAdapter,
-- StdParallelIteration and StdContainerWrapper. An iterator of the container is a position, and a node
-- is a number, as is the node that is not valid. `policy` gives the node of a position, the end included.
pub mod Chunks
pub mod Cutting
pub mod Reading
pub mod Tests
use pgasus.Common.{
  ℕ, zero, suc, Bool, true, false, not, ◌||◌, Option, none, some, List, [], ◌∷◌, ◌++◌, ◌==◌, leb,
  if◌then◌else◌, ◌>>=◌, get_elem?,
}
use pgasus.Iterating.{Ops}

-- A StdIteratorAdapter, with `_curr` and `_end`.
pub record Adapter : Type 0 where
  pub curr : ℕ
  pub end : ℕ

unfoldable pub is_end : Adapter → Bool
is_end a = a.curr == a.end

unfoldable pub next : Adapter → Adapter × Bool
next a = if is_end a then (a, false) else (record a { curr = suc a.curr }, true)

-- The value is a position, at which the container is read.
abbrev pub adapter_ops : Ops Adapter ℕ
adapter_ops = record { is_end = is_end; next = next; value = λ a. a.curr }

-- `_iters` and `currIndex` of a StdParallelIteration.
pub record Parallel : Type 0 where
  pub iters : List Adapter
  pub curr_index : ℕ

unfoldable pub new_parallel : Parallel
new_parallel = record { iters = []; curr_index = 0 }

unfoldable pub add_iterator_pair : ℕ → ℕ → Parallel → Parallel
add_iterator_pair begin end p = record p {
  iters = p.iters ++ record { curr = begin; end = end } ∷ [];
}

-- `StdParallelIteration::get`.
unfoldable pub get : Parallel → Parallel × Option Adapter
get p = (record p { curr_index = suc p.curr_index }, get_elem? p.iters p.curr_index)

-- `iters` of a StdContainerWrapper: `none` for a node without an entry.
abbrev pub Iters : Type 0
Iters = ℕ → Option Parallel

-- The entries that are made first: those of `nodes`, which are the ones with processors, and the node that is not
-- valid.
unfoldable pub contains : ℕ → List ℕ → Bool
contains n [] = false
contains n (m ∷ ms) = n == m || contains n ms

unfoldable pub new_iters : List ℕ → Iters
new_iters nodes n = if contains n nodes then some new_parallel else none

-- `iters[n]->addIteratorPair`; a node without an entry has a null pointer there.
unfoldable pub add_to : ℕ → ℕ → ℕ → Iters → Option Iters
add_to n begin end iters = do
  p ← iters n
  some (λ j. if j == n then some (add_iterator_pair begin end p) else iters j)

module _ (policy : ℕ → ℕ) (max_chunk size : ℕ) where
  -- Whether a chunk ends before the position `it`.
  unfoldable pub is_cut : (it curr_node curr_chunk : ℕ) → Bool
  is_cut it curr_node curr_chunk =
      not (policy it == curr_node) || it == size || leb max_chunk curr_chunk

  -- The loop, with the number of elements that are left.
  unfoldable pub extract : (left it last curr_node curr_chunk : ℕ) → Iters → Option Iters
  extract zero it last curr_node curr_chunk iters = some iters
  extract (suc left) it last curr_node curr_chunk iters =
      let cut = do
        iters' ← add_to curr_node last (suc it) iters
        extract left (suc it) (suc it) (policy (suc it)) 0 iters'
      in let go_on = extract left (suc it) last curr_node (suc curr_chunk) iters in
        if is_cut (suc it) curr_node (suc curr_chunk) then cut else go_on

  -- `StdContainerWrapper::iterate` when nothing has been created.
  unfoldable pub create : List ℕ → Option Iters
  create nodes = extract size 0 0 (policy 0) 0 (new_iters nodes)
