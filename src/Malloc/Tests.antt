-- ===== src/Malloc/Tests.antt =====
-- A thread on node 1 of 3 with one place, and another thread without places.
use pgasus.Common.{ℕ, ◌+◌, ◌≡◌, refl, none, some, [], ◌∷◌, arith}
use pgasus.Malloc.{Place, Local, back, get_place_msource, get_curr_msource, push, pop}
use pgasus.Malloc.Places.{IsCurrent, IsSettled}
use pgasus.Malloc.Stack.{guard-restores}

abbrev create : ℕ → ℕ
create n = 1000 + n

abbrev thread : Local
thread = record {
  node = 1;
  msources = none ∷ some 11 ∷ none ∷ [];
  thread_msource = 12;
  place_stack = Place.on_source 77 ∷ [];
  curr_msource = 77;
}

abbrev other : Local
other = record {
  node = 0;
  msources = some 10 ∷ none ∷ none ∷ [];
  thread_msource = 13;
  place_stack = [];
  curr_msource = 13;
}

thread-IsSettled : IsSettled create thread
unfolding IsCurrent get_curr_msource back get_place_msource
thread-IsSettled = record { current = refl; ranged = (tt, tt) }

guard-restores_example :
    (l1 : Local) × (l2 : Local) × (push create (Place.on_node 2) thread ≡ some l1)
    × (pop create l1 ≡ some (l2, Place.on_node 2))
    × IsSettled create l1
    × IsSettled create l2
    × (l1.place_stack ≡ Place.on_source 77 ∷ Place.on_node 2 ∷ [])
    × (l2.place_stack ≡ Place.on_source 77 ∷ [])
    × (l2.curr_msource ≡ 77)
guard-restores_example =
    guard-restores create (Place.on_node 2) thread thread-IsSettled (omega arith)
