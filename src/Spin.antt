-- ===== src/Spin.antt =====
-- include/PGASUS/base/spinlock.hpp: the spin lock with its exponential back-off, shared by threads that
-- move one after the other, an access to the flag or to the back-off at a time. A pause is no step.
pub mod Exclusion
pub mod Patience
pub mod Tests
use pgasus.Common.{
  ℕ, zero, suc, ◌+◌, ◌*◌, ◌%◌, ◌^◌, Bool, true, false, Option, none, some, List, [], ◌∷◌, ltb,
  if◌then◌else◌, length, get_or, set, replicate,
}

-- `INITIAL` and `MAXBKOFF` of `SpinLock`.
abbrev pub initial : ℕ
initial = 16

abbrev pub max_backoff : ℕ
max_backoff = 1024

-- The accesses of `ExponentialBackOff::backoff` to `curr`, which all threads share and no lock protects: the test
-- against the bound, the read of `curr <<= 1`, and its write, of a word of 64 bits.
unfoldable pub may_grow : ℕ → Bool
may_grow curr = ltb curr max_backoff

unfoldable pub doubled : ℕ → ℕ
doubled curr = curr * 2 % 2 ^ 64

-- `backoff` of a thread that runs alone: the new `curr`, and whether it has grown.
unfoldable pub backoff : ℕ → ℕ × Bool
backoff curr = if may_grow curr then (doubled curr, true) else (curr, false)

-- `LinearBackOff::backoff` of a thread that runs alone.
unfoldable pub linear_backoff : (step max curr : ℕ) → ℕ × Bool
linear_backoff step max curr =
    if ltb curr max then ((curr + step) % 2 ^ 64, true) else (curr, false)

-- Where a thread stands: in `lock` before the test of the flag, before the test, the read and the write of the
-- back-off, the last with the value that was read, and at the reset; the same in `try_lock`; and between a
-- lock and its unlock.
pub data Pc : Type 0 where
  idle lock_test lock_wait lock_read lock_reset try_test try_wait try_read try_reset holding : Pc
  lock_write try_write : ℕ → Pc

-- Which of the two a thread calls.
pub data Call : Type 0 where
  lock try_lock : Call

-- `locked` and `bkoff.curr`.
pub record Flag : Type 0 where
  pub locked : Bool
  pub curr : ℕ

-- The next access of a thread.
unfoldable pub step : Call → Flag → Pc → Flag × Pc
step lock f idle = (f, Pc.lock_test)
step try_lock f idle = (f, Pc.try_test)
step c f lock_test =
    if f.locked then (f, Pc.lock_wait) else (record f { locked = true }, Pc.lock_reset)
step c f lock_wait = (f, if may_grow f.curr then Pc.lock_read else Pc.lock_test)
step c f lock_read = (f, Pc.lock_write f.curr)
step c f (lock_write v) = (record f { curr = doubled v }, Pc.lock_test)
step c f lock_reset = (record f { curr = initial }, Pc.holding)
step c f try_test =
    if f.locked then (f, Pc.try_wait) else (record f { locked = true }, Pc.try_reset)
step c f try_wait = (f, if may_grow f.curr then Pc.try_read else Pc.idle)
step c f try_read = (f, Pc.try_write f.curr)
step c f (try_write v) = (record f { curr = doubled v }, Pc.try_test)
step c f try_reset = (record f { curr = initial }, Pc.holding)
step c f holding = (record f { locked = false }, Pc.idle)

pub record System : Type 0 where
  pub flag : Flag
  pub threads : List Pc

-- A new lock.
unfoldable pub start : ℕ → System
start n = record { flag = record { locked = false; curr = initial }; threads = replicate n Pc.idle }

unfoldable pub move : ℕ → Call → System → System
move i c s =
    if ltb i (length s.threads)
    then (let (f, p) = step c s.flag (get_or s.threads i Pc.idle) in
        record { flag = f; threads = set s.threads i p })
    else s

unfoldable pub run : List (ℕ × Call) → System → System
run [] s = s
run ((i, c) ∷ ms) s = run ms (move i c s)

-- A call of `try_lock` of a thread that runs alone, with fuel for its tests: its result, and the flag.
unfoldable pub try_alone : ℕ → Flag → Option (Bool × Flag)
try_alone zero f = none
try_alone (suc n) f =
    let waited = record f { curr = (backoff f.curr).0 } in
    let again = try_alone n waited in
    if f.locked
    then (if (backoff f.curr).1 then again else some (false, waited))
    else some (true, record f { locked = true; curr = initial })
