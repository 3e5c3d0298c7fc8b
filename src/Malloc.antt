-- ===== src/Malloc.antt =====
-- src/msource/stackedmalloc.cpp and include/PGASUS/malloc.hpp: the stack of places of a thread, which
-- decides where its memory comes from, and the functions of the C library on top of it.
pub mod Places
pub mod Calls
pub mod Moving
pub mod Sizes
pub mod Tests
pub mod Kept
pub mod Stack
use pgasus.Common.{
  ℕ, zero, suc, ◌+◌, ◌*◌, ◌-◌, ◌%◌, Bool, true, false, Option, none, some, List, [], ◌∷◌, ◌++◌,
  ◌==◌, if◌then◌else◌, ◌>>=◌, get_elem?, set,
}

-- A valid `Place`: a memory source, or a node by its physical id.
pub data Place : Type 0 where
  on_source : ℕ → Place
  on_node : ℕ → Place

-- `ThreadLocalStorage`, with the `msources` of its node's storage. The last place is the top.
pub record Local : Type 0 where
  pub node : ℕ
  pub msources : List (Option ℕ)
  pub thread_msource : ℕ
  pub place_stack : List Place
  pub curr_msource : ℕ

-- `back()` and `pop_back()` of the stack.
unfoldable pub back : List Place → Option Place
back [] = none
back (x ∷ []) = some x
back (x ∷ y ∷ ys) = back (y ∷ ys)

unfoldable pub pop_back : List Place → List Place
pop_back [] = []
pop_back (x ∷ []) = []
pop_back (x ∷ y ∷ ys) = x ∷ pop_back (y ∷ ys)

-- `create n` is the source that `MemSource::create` makes for the node `n`. A failed assertion is `none`.
module _ (create : ℕ → ℕ) where
  -- `NodeLocalStorage::get`: the source for a node, made on the first use.
  unfoldable pub get : ℕ → List (Option ℕ) → Option (List (Option ℕ) × ℕ)
  get n msources = elim (get_elem? msources n) [
    | none ↦ none
    | some slot ↦ elim slot [
      | some ms ↦ some (msources, ms)
      | none ↦ some (set msources n (some (create n)), create n)
    ]
  ]

  unfoldable pub get_node_msource : ℕ → Local → Option (Local × ℕ)
  get_node_msource n l =
      let stored = do (msources, ms) ← get n l.msources; some (record l { msources = msources }, ms)
      in if n == l.node then some (l, l.thread_msource) else stored

  unfoldable pub get_place_msource : Place → Local → Option (Local × ℕ)
  get_place_msource (Place.on_source ms) l = some (l, ms)
  get_place_msource (Place.on_node n) l = get_node_msource n l

  unfoldable pub get_curr_msource : Local → Option (Local × ℕ)
  get_curr_msource l = elim (back l.place_stack) [
    | none ↦ some (l, l.thread_msource)
    | some p ↦ get_place_msource p l
  ]

  -- The assignment of `_curr_msource`.
  unfoldable pub settle : Option (Local × ℕ) → Option Local
  settle r = do (l, ms) ← r; some (record l { curr_msource = ms })

  unfoldable pub push : Place → Local → Option Local
  push p l = settle (get_place_msource p (record l { place_stack = l.place_stack ++ (p ∷ []) }))

  -- The assertion fails on an empty stack.
  unfoldable pub pop : Local → Option (Local × Place)
  pop l = do
    p ← back l.place_stack
    l' ← settle (get_curr_msource (record l { place_stack = pop_back l.place_stack }))
    some (l', p)

  unfoldable pub pop_all : Local → Local × List Place
  pop_all l = (record l { place_stack = []; curr_msource = l.thread_msource }, l.place_stack)

  unfoldable pub push_all : List Place → Local → Option Local
  push_all ps l = settle (get_curr_msource (record l { place_stack = l.place_stack ++ ps }))
