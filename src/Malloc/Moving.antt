-- ===== src/Malloc/Moving.antt =====
-- The places of a task move with it from one thread to another.
use pgasus.Common.{All, ℕ, ◌≡◌, refl, some, [], length}
use pgasus.Malloc.{Local, back, get_curr_msource, pop_all, push_all}
use pgasus.Malloc.Places.{IsCurrent, InRange, IsSettled, settle-IsSettled}

module _ (create : ℕ → ℕ) where
  -- A thread without places uses its own source.
  pop_all-IsSettled : (l : Local) → IsSettled create (pop_all create l).0
  unfolding pop_all IsCurrent get_curr_msource back
  pop_all-IsSettled l = record { current = refl; ranged = tt }

  -- The places of one thread that are taken off by pop_all and put on another one, which has none, by
  -- push_all: they are the stack there, in order, and both threads use the source of their top place.
  pub push_all-pop_all :
      (l other : Local)
      → other.place_stack ≡ []
      → All (InRange (length other.msources)) l.place_stack
      → (other' : Local) × (push_all create (pop_all create l).1 other ≡ some other')
        × IsSettled create other'
        × (other'.place_stack ≡ l.place_stack)
        × IsSettled create (pop_all create l).0
        × ((pop_all create l).0.place_stack ≡ [])
  unfolding push_all pop_all
  push_all-pop_all l other empty ranged =
      let (other', e, s, same) =
        settle-IsSettled create (record other { place_stack = l.place_stack }) ranged in
      (other', rw empty e, s, same, pop_all-IsSettled l, refl)
