-- ===== src/Lock.antt =====
-- `RWLock` of include/PGASUS/base/rwlock.hpp: threads that take and release the lock, interleaved at
-- their accesses to the atomic word.
pub mod Word
pub mod Safety
pub mod Tests
use pgasus.Common.{
  ℕ, zero, suc, ◌+◌, ◌-◌, ◌%◌, ◌^◌, bit_and, bit_or, Bool, true, false, not, ◌&&◌, ◌||◌, List, [],
  ◌∷◌, ◌==◌, ltb, if◌then◌else◌, length, get_or, set, replicate,
}

-- `FLAG_WRITE`.
abbrev pub flag_write : ℕ
flag_write = 0x40000000

-- Where a thread stands: in which access of which operation. A loop carries its `oldV`; `reading` and
-- `writing` hold the lock; `failed` is after a failed check or assertion.
pub data Pc : Type 0 where
  idle : Pc
  read_loop : (old : ℕ) → Pc
  read_check : Pc
  reading : Pc
  read_leave : Pc
  read_dec : Pc
  write_loop : (old : ℕ) → Pc
  write_drain : Pc
  write_check : Pc
  writing : Pc
  write_leave : Pc
  write_store : Pc
  failed : Pc

-- What a thread does where it has a choice: which guard it takes, and whether a weak compare and
-- exchange fails although the values agree.
pub data Choice : Type 0 where
  go_on : Choice
  to_write : Choice
  spurious : Choice

abbrev pub is_spurious : Choice → Bool
is_spurious spurious = true
is_spurious go_on = false
is_spurious to_write = false

abbrev pub has_flag : ℕ → Bool
has_flag v = not (bit_and v flag_write == 0)

-- The checks of `read_lock` and `read_unlock`.
abbrev pub bad_read : ℕ → Bool
bad_read v = v == 0 || v == flag_write

-- The next access of a thread, on the value of the word: its new value, and where the thread stands then.
unfoldable pub step : Choice → ℕ → Pc → ℕ × Pc
step go_on v idle = (v, Pc.read_loop v)
step spurious v idle = (v, Pc.read_loop v)
step to_write v idle = (v, Pc.write_loop v)
step c v (read_loop old) =
    if has_flag old || is_spurious c || not (v == old)
    then (v, Pc.read_loop v)
    else ((old + 1) % 2 ^ 64, Pc.read_check)
step c v read_check = if bad_read v then (v, Pc.failed) else (v, Pc.reading)
step c v reading = (v, Pc.read_leave)
step c v read_leave = if bad_read v then (v, Pc.failed) else (v, Pc.read_dec)
step c v read_dec = ((v + (2 ^ 64 - 1)) % 2 ^ 64, Pc.idle)
step c v (write_loop old) =
    if has_flag old || is_spurious c || not (v == old)
    then (v, Pc.write_loop v)
    else (bit_or old flag_write, Pc.write_drain)
step c v write_drain = if v == flag_write then (v, Pc.write_check) else (v, Pc.write_drain)
step c v write_check = if v == flag_write then (v, Pc.writing) else (v, Pc.failed)
step c v writing = (v, Pc.write_leave)
step c v write_leave = if v == flag_write then (v, Pc.write_store) else (v, Pc.failed)
step c v write_store = (0, Pc.idle)
step c v failed = (v, Pc.failed)

-- The word, and the threads.
pub record System : Type 0 where
  pub value : ℕ
  pub threads : List Pc

unfoldable pub start : ℕ → System
start n = record { value = 0; threads = replicate n Pc.idle }

-- The thread with number `i` moves; there is no effect where there is no such thread.
unfoldable pub move : ℕ → Choice → System → System
move i c s =
    if ltb i (length s.threads)
    then (let (v, p) = step c s.value (get_or s.threads i Pc.idle) in
        record { value = v; threads = set s.threads i p })
    else s

-- A schedule is a list of moves, from the left.
unfoldable pub run : List (ℕ × Choice) → System → System
run [] s = s
run ((i, c) ∷ ms) s = run ms (move i c s)
