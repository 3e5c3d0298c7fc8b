-- ===== src/Mutex.antt =====
-- `Mutex` of include/PGASUS/mutex.hpp: a triggerable that hands the lock over to the client that has
-- waited for the longest time. Each operation runs under the spin lock of the triggerable, and is one
-- step here; clients are numbered.
pub mod Fifo
pub mod Tests
use pgasus.Common.{
  ℕ, ◌+◌, Bool, true, false, Option, none, some, List, [], ◌∷◌, ◌++◌, if◌then◌else◌,
}

-- `Mutex::WaitObject` with the clients of its base class Triggerable.
pub record WaitObject : Type 0 where
  pub clients : List ℕ
  pub locked : Bool

unfoldable pub new_mutex : WaitObject
new_mutex = record { clients = []; locked = false }

-- Locks in any case, and tells whether it was locked.
unfoldable pub must_wait : WaitObject → WaitObject × Bool
must_wait w = (record w { locked = true }, w.locked)

-- `Triggerable::register_wait`.
unfoldable pub register_wait : ℕ → WaitObject → WaitObject × Bool
register_wait t w =
    let (w', waits) = must_wait w in
    if waits then (record w' { clients = w'.clients ++ t ∷ [] }, true) else (w', false)

-- `Triggerable::trigger_one`: the client that is signaled.
unfoldable pub trigger_one : WaitObject → WaitObject × Option ℕ
trigger_one w = elim w.clients [ [] ↦ (w, none) | t ∷ ts ↦ (record w { clients = ts }, some t) ]

-- `WaitObject::release`: unlocks where no client was signaled.
unfoldable pub release : WaitObject → WaitObject × Option ℕ
release w =
    let (w', woken) = trigger_one w in
    elim woken [ none ↦ (record w' { locked = false }, none) | some t ↦ (w', some t) ]

-- `Mutex::lock`, up to the wait: whether the caller waits.
unfoldable pub lock : ℕ → WaitObject → WaitObject × Bool
lock t w = register_wait t w

-- `Mutex::unlock`: the client that holds the lock then, if there is one.
unfoldable pub unlock : WaitObject → WaitObject × Option ℕ
unlock w = release w
