-- ===== src/Tasks/Tests.antt =====
-- The theorems on tasks at concrete collections, domains and schedulers. The priority of a task is
-- its number, and there are three processors.
use pgasus.Common.{
  ℕ, zero, suc, ◌+◌, ◌≤◌, ◌<◌, ◌≡◌, refl, false, Option, none, some, [], ◌∷◌, ◌++◌, arith, count,
  ◌==◌, if◌then◌else◌, length,
}
use pgasus.Tasks.Collection.{Collection}
use pgasus.Tasks.Taking.{in_option}
use pgasus.Tasks.Domain.{Domain, new_domain, put_task, try_get_task, remove_thread}
use pgasus.Tasks.Valid.{IsValid, holds, new_domain-IsValid}
use pgasus.Tasks.Dispatch.{try_get_task-highest}
use pgasus.Tasks.Putting.{put_task-holds}
use pgasus.Tasks.Workers.{add_thread-IsValid, remove_thread-IsValid}
use pgasus.Tasks.Scheduler.{Scheduler, works, set_thread_count, employed}
use pgasus.Tasks.Staff.{IsStaffed}
use pgasus.Tasks.Resizing.{set_thread_count-employed}

abbrev pub priority : ℕ → ℕ
priority t = t

abbrev pub random : ℕ → ℕ
random i = 4

-- Thread 1 has a queue with task 9, and the global queue holds task 8.
abbrev tasks : Collection
tasks = record { global = 8 ∷ []; threads = none ∷ some (9 ∷ []) ∷ [] }

abbrev pub fresh : IsValid 3 priority new_domain
fresh = (new_domain-IsValid 3 priority).0

no_active : count 1 new_domain.active ≡ 0
unfolding new_domain count
no_active = refl

-- A domain with the active thread 1.
abbrev one_thread : (d : Domain) × IsValid 3 priority d × (d.active ≡ new_domain.active ++ 1 ∷ [])
one_thread =
    let (d, e, v, a, h) =
      add_thread-IsValid 3 priority 1 new_domain fresh (omega arith) no_active in
    (d, v, a)

put_task-holds_example :
    (d' : Domain) × (put_task 3 priority 5 1 one_thread.0 ≡ some d')
    × IsValid 3 priority d'
    × ((t' : ℕ) → holds t' d' ≡ holds t' one_thread.0 + (if t' == 5 then 1 else 0))
put_task-holds_example = put_task-holds 3 priority 5 1 one_thread.0 one_thread.1 (omega arith)

-- The same domain with task 5 in the queue of thread 1.
pub one_task : (d : Domain) × IsValid 3 priority d
one_task =
    let (d, e, v, h) = put_task-holds 3 priority 5 1 one_thread.0 one_thread.1 (omega arith) in
    (d, v)

try_get_task-highest_example :
    (d' : Domain) × (r : Option ℕ) × (try_get_task random 0 one_task.0 ≡ some (d', r))
    × IsValid 3 priority d'
    × ((t : ℕ) → holds t one_task.0 ≡ holds t d' + in_option (count t) r)
    × (r ≡ none → (t : ℕ) → holds t one_task.0 ≡ 0)
    × ((t : ℕ) → r ≡ some t → (t' : ℕ) → 0 < holds t' one_task.0 → priority t' ≤ priority t)
try_get_task-highest_example = try_get_task-highest 3 priority random 0 one_task.0 one_task.1

is_active : 0 < count 1 one_thread.0.active
unfolding new_domain count
is_active = rw one_thread.2 (omega arith)

remove_thread-IsValid_example :
    (d' : Domain) × (remove_thread 1 one_thread.0 ≡ some d')
    × IsValid 3 priority d'
    × ((j : ℕ) → count j d'.active ≡ (if 1 == j then 0 else count j one_thread.0.active))
    × ((t : ℕ) → holds t d' ≡ holds t one_thread.0)
remove_thread-IsValid_example =
    remove_thread-IsValid 3 priority 1 one_thread.0 one_thread.1 is_active

-- Three cores without workers.
abbrev idle_cores : Scheduler
idle_cores = record { workers = false ∷ false ∷ false ∷ []; domain = new_domain }

idle_works : (c : ℕ) → works c idle_cores ≡ false
idle_works zero = refl
idle_works (suc zero) = refl
idle_works (suc (suc zero)) = refl
idle_works (suc (suc (suc c))) = refl

idle-IsStaffed : IsStaffed 3 priority idle_cores
unfolding new_domain count
idle-IsStaffed = record { valid = fresh; room = omega arith; staff = λ c. rw (idle_works c) refl }

set_thread_count-employed_example :
    (s' : Scheduler) × (set_thread_count 2 idle_cores ≡ some s')
    × IsStaffed 3 priority s'
    × (employed s'.workers ≡ 2)
    × (length s'.workers ≡ length idle_cores.workers)
    × ((t : ℕ) → holds t s'.domain ≡ holds t idle_cores.domain)
set_thread_count-employed_example =
    set_thread_count-employed 3 priority 2 idle_cores idle-IsStaffed (omega arith)
