-- ===== src/Tasks/Pool.antt =====
-- Getting and spawning tasks over all schedulers of src/tasking/task_scheduler.cpp: the global domain, and for each
-- node the domain of its scheduler with the threads that sleep until there is a task.
use pgasus.Common.{
  ℕ, suc, ◌+◌, ◌-◌, ◌*◌, Option, none, some, List, [], ◌∷◌, ◌==◌, if◌then◌else◌, ltb, ◌>>=◌,
  get_elem?, set,
}
use pgasus.Tasks.Domain
use pgasus.Tasks.Domain.{Domain}

-- `_waitingThreadsCount`, and the value of `_waitingThreadsSemaphore`.
pub record Sleep : Type 0 where
  pub waiting : ℕ
  pub semaphore : ℕ

-- The part of a Scheduler that the tasks go through, with the processors of its node.
pub record Site : Type 0 where
  pub cpus : ℕ
  pub domain : Domain
  pub sleep : Sleep

pub record Pool : Type 0 where
  pub global_cpus : ℕ
  pub global : Domain
  pub sites : List Site

-- `taskAvailable`.
unfoldable pub task_available : Sleep → Sleep
task_available s =
    if ltb 0 s.waiting then record { waiting = 0; semaphore = s.semaphore + s.waiting } else s

-- `waitForTask` up to the call of sem_timedwait.
unfoldable pub register_waiting : Sleep → Sleep
register_waiting s = record s { waiting = suc s.waiting }

-- The seconds and nanoseconds up to which it waits, where the time is `sec` and `usec`.
unfoldable pub wait_time : (sec usec wait_usec : ℕ) → ℕ × ℕ
wait_time sec usec wait_usec =
    let nsec = 1000 * (usec + wait_usec) in
    if ltb 1000000000 nsec then (sec + 1, nsec - 1000000000) else (sec, nsec)

-- A Scheduler's `try_get_task`; -1 for the thread is an index that no queue has.
unfoldable pub try_get_task :
    (random : ℕ → ℕ) (thid no_thread : ℕ) (local global : Domain)
    → Option (Domain × Domain × Option ℕ)
try_get_task random thid no_thread local global = do
  (local', t) ← Domain.try_get_task random thid local
  let from_global = do
    (global', t') ← Domain.try_get_task random no_thread global
    some (local', global', t')
  elim t as (λ _. Option (Domain × Domain × Option ℕ)) [
    | some task ↦ some (local', global, some task)
    | none ↦ from_global
  ]

-- A Scheduler's `put_task`.
unfoldable pub put_task : (priority : ℕ → ℕ) (t thid : ℕ) → Site → Option Site
put_task priority t thid s = do
  d ← Domain.put_task s.cpus priority t thid s.domain
  some (record s { domain = d; sleep = task_available s.sleep })

-- The thread that `spawn_task` wishes for: the calling worker, if it is one of this node.
unfoldable pub wished : (no_thread node : ℕ) → Option (ℕ × ℕ) → ℕ
wished no_thread node none = no_thread
wished no_thread node (some (id, home)) = if home == node then id else no_thread

-- `spawn_task`, where `caller` is the id and node of the calling worker; no scheduler stands for the global domain.
-- `with_cpus` has the nodes with processors, whose schedulers are told.
unfoldable pub wake_all : List ℕ → List Site → List Site
wake_all [] sites = sites
wake_all (n ∷ ns) sites = elim (get_elem? sites n) [
  | none ↦ wake_all ns sites
  | some s ↦ wake_all ns (set sites n (record s { sleep = task_available s.sleep }))
]

unfoldable pub spawn_task :
    (priority : ℕ → ℕ) (no_thread : ℕ) (with_cpus : List ℕ) (sched : Option ℕ)
    (caller : Option (ℕ × ℕ)) (t : ℕ)
    → Pool
    → Option Pool
spawn_task priority no_thread with_cpus none caller t p = do
  d ← Domain.put_task p.global_cpus priority t no_thread p.global
  some (record p { global = d; sites = wake_all with_cpus p.sites })
spawn_task priority no_thread with_cpus (some node) caller t p = do
  s ← get_elem? p.sites node
  s' ← put_task priority t (wished no_thread node caller) s
  some (record p { sites = set p.sites node s' })
