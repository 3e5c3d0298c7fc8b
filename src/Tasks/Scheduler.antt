-- ===== src/Tasks/Scheduler.antt =====
-- The worker threads of a `Scheduler` (src/tasking/task_scheduler.cpp), by the number of their core.
-- Starting a thread in the thread manager, and waiting for it to end, is no part of the state.
use pgasus.Common.{
  ℕ, zero, suc, ◌+◌, ◌-◌, Bool, true, false, not, ◌&&◌, Option, none, some, List, [], ◌∷◌,
  if◌then◌else◌, ltb, leb, ◌>>=◌, length, get_or, set,
}
use pgasus.Tasks.Domain.{Domain, add_thread, remove_thread}

-- `_workers`, with the null pointers as `false`, and `_domain`.
pub record Scheduler : Type 0 where
  pub workers : List Bool
  pub domain : Domain

abbrev pub works : ℕ → Scheduler → Bool
works c s = get_or s.workers c false

-- Asserts that the core exists and has no worker.
unfoldable pub create_thread : ℕ → Scheduler → Option Scheduler
create_thread core s =
    if ltb core (length s.workers) && not (works core s)
    then (do
      d ← add_thread core s.domain
      some (record { workers = set s.workers core true; domain = d }))
    else none

-- Asserts that the core exists and has a worker.
unfoldable pub stop_wait_thread : ℕ → Scheduler → Option Scheduler
stop_wait_thread core s =
    if ltb core (length s.workers) && works core s
    then (do
      d ← remove_thread core s.domain
      some (record { workers = set s.workers core false; domain = d }))
    else none

-- The body of the loop of `set_threads` for a core that is wanted or not.
abbrev pub set_thread : Bool → ℕ → Scheduler → Option Scheduler
set_thread wanted c s =
    if wanted && not (works c s)
    then create_thread c s
    else (if not wanted && works c s then stop_wait_thread c s else some s)

-- The loop of `set_threads` from core `c` on, for `n` cores.
unfoldable pub set_threads_from : ℕ → ℕ → List Bool → Scheduler → Option Scheduler
set_threads_from zero c core_ids s = some s
set_threads_from (suc n) c core_ids s =
    set_thread (get_or core_ids c false) c s >>= set_threads_from n (suc c) core_ids

-- `set_threads`, for a list of flags, one for each core; it fails where the list is too short.
unfoldable pub set_threads : List Bool → Scheduler → Option Scheduler
set_threads core_ids s =
    if leb (length s.workers) (length core_ids)
    then set_threads_from (length s.workers) 0 core_ids s
    else none

-- The number of workers.
unfoldable pub employed : List Bool → ℕ
employed [] = 0
employed (w ∷ ws) = (if w then 1 else 0) + employed ws

-- The first loop of `set_thread_count`, from core `c` on for `n` cores, with the number of workers.
unfoldable pub grow : ℕ → ℕ → ℕ → ℕ → Scheduler → Option (Scheduler × ℕ)
grow zero c curr count s = some (s, curr)
grow (suc n) c curr count s =
    let next = grow n (suc c) in
    if ltb curr count
    then (if not (works c s)
        then create_thread c s >>= next (curr + 1) count
        else next curr count s)
    else some (s, curr)

-- The second loop, over the cores below `c`, from the highest.
unfoldable pub shrink : ℕ → ℕ → ℕ → Scheduler → Option (Scheduler × ℕ)
shrink zero curr count s = some (s, curr)
shrink (suc c) curr count s =
    let next = shrink c in
    if ltb count curr
    then (if works c s then stop_wait_thread c s >>= next (curr - 1) count else next curr count s)
    else some (s, curr)

-- Asserts that there are as many cores.
unfoldable pub set_thread_count : ℕ → Scheduler → Option Scheduler
set_thread_count count s =
    let cores = length s.workers in
    if leb count cores
    then (do
      (s', curr) ← grow cores 0 (employed s.workers) count s
      (s'', curr') ← shrink cores curr count s'
      some s'')
    else none
