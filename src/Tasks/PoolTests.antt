-- ===== src/Tasks/PoolTests.antt =====
-- The theorems on spawning and getting tasks at concrete schedulers.
use pgasus.Common.{ℕ, ◌+◌, ◌≡◌, refl, Option, some, [], ◌∷◌, ◌==◌, if◌then◌else◌, set, arith}
use pgasus.Tasks.Domain.{Domain, new_domain}
use pgasus.Tasks.Valid.{IsValid, holds}
use pgasus.Tasks.Pool.{Site, Pool, try_get_task, spawn_task}
use pgasus.Tasks.Spawning.{Got, try_get_task-Got, spawn_task-holds}
use pgasus.Tasks.Tests.{priority, random, fresh, one_task}

-- The node of the thread has no task, and the global domain has task 5.
try_get_task-Got_example :
    (local' : Domain) × (global' : Domain) × (r : Option ℕ) × (try_get_task random 1 7 new_domain
        one_task.0
      ≡ some (local', global', r))
    × Got 3 3 priority new_domain one_task.0 local' global' r
try_get_task-Got_example =
    try_get_task-Got 3 3 priority random 1 7 new_domain one_task.0 fresh one_task.1

-- Two threads of the only scheduler wait.
abbrev site : Site
site = record { cpus = 3; domain = one_task.0; sleep = record { waiting = 2; semaphore = 1 } }

abbrev pool : Pool
pool = record { global_cpus = 3; global = new_domain; sites = site ∷ [] }

spawn_task-holds_example :
    (p' : Pool) × (s' : Site) × (spawn_task priority 7 (0 ∷ []) (some 0) (some (1, 0)) 4 pool
      ≡ some p')
    × (p'.sites ≡ set pool.sites 0 s')
    × (p'.global ≡ pool.global)
    × IsValid 3 priority s'.domain
    × ((t' : ℕ) → holds t' s'.domain ≡ holds t' site.domain + (if t' == 4 then 1 else 0))
    × (s'.sleep.waiting ≡ 0)
    × (s'.sleep.semaphore ≡ site.sleep.semaphore + site.sleep.waiting)
spawn_task-holds_example =
    spawn_task-holds priority 7 0 4 (0 ∷ []) (some (1, 0)) pool site refl one_task.1 (omega arith)
