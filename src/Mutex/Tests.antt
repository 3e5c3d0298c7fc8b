-- ===== src/Mutex/Tests.antt =====
-- The mutex under calls of three clients.
use pgasus.Common.{◌+◌, ◌≡◌, refl, false, List, [], ◌∷◌, ◌++◌, if◌then◌else◌, length}
use pgasus.Mutex.{new_mutex, must_wait, register_wait, trigger_one, release, lock, unlock}
use pgasus.Mutex.Fifo.{Call, call, calls, begin, callers, calls-fifo}

abbrev example : List Call
example = Call.locks 1 ∷ Call.locks 2 ∷ Call.unlocks ∷ Call.locks 3 ∷ []

calls-fifo_example :
    ((calls example begin).granted ++ (calls example begin).mutex.clients ≡ callers example)
    × (length (calls example begin).granted
        ≡ (calls example begin).releases + (if (calls example begin).mutex.locked then 1 else 0))
    × ((calls example begin).mutex.locked ≡ false → (calls example begin).mutex.clients ≡ [])
calls-fifo_example = calls-fifo example

-- Client 2 holds it, and client 3 waits.
holder : (calls example begin).granted ≡ 1 ∷ 2 ∷ []
unfolding calls call lock unlock release trigger_one register_wait must_wait new_mutex
holder = refl
