-- ===== src/Tasks/Collection.antt =====
-- src/tasking/task_collection.*: one queue for each registered thread, and a global queue. A queue
-- (`SyncDeque` of include/PGASUS/synced_containers.hpp) is a list with its front first; a null
-- pointer to a queue is `none`.
use pgasus.Common.{
  ℕ, zero, suc, ◌-◌, ◌%◌, Option, none, some, List, [], ◌∷◌, ◌++◌, if◌then◌else◌, ltb, leb, length,
  get_or, set, replicate,
}

abbrev pub Queue : Type 0
Queue = List ℕ

-- `_global_tasks` and `_thread_tasks`.
pub record Collection : Type 0 where
  pub global : Queue
  pub threads : List (Option Queue)

unfoldable pub create : ℕ → Collection
create max_threads = record { global = []; threads = replicate max_threads none }

abbrev pub push_back : Queue → ℕ → Queue
push_back q t = q ++ t ∷ []

abbrev pub try_pop_front : Queue → Queue × Option ℕ
try_pop_front [] = ([], none)
try_pop_front (t ∷ q) = (q, some t)

-- Null where there is no such thread.
unfoldable pub get_thread_queue : ℕ → Collection → Option Queue
get_thread_queue idx c = if ltb idx (length c.threads) then get_or c.threads idx none else none

abbrev pub set_thread_queue : ℕ → Option Queue → Collection → Collection
set_thread_queue idx q c = record c { threads = set c.threads idx q }

unfoldable pub try_get_thread_task : ℕ → Collection → Collection × Option ℕ
try_get_thread_task idx c = elim (get_thread_queue idx c) [
  | none ↦ (c, none)
  | some q ↦ let (q', t) = try_pop_front q in (set_thread_queue idx (some q') c, t)
]

-- `TaskQueueEntry::create` keeps a queue that is there. The assertion fails with `none`.
unfoldable pub register_thread : ℕ → Collection → Option Collection
register_thread idx c =
    if ltb idx (length c.threads)
    then elim (get_or c.threads idx none) [
      | none ↦ some (set_thread_queue idx (some []) c)
      | some q ↦ some c
    ]
    else none

-- The loop that moves a queue to the end of another, front first.
unfoldable pub move_all : Queue → Queue → Queue
move_all [] dst = dst
move_all (t ∷ q) dst = move_all q (push_back dst t)

-- Fails where there is no such thread, or it has no queue (the code dereferences it).
unfoldable pub deregister_thread : ℕ → Collection → Option Collection
deregister_thread idx c =
    if ltb idx (length c.threads)
    then elim (get_or c.threads idx none) [
      | none ↦ none
      | some q ↦ some (record { global = move_all q c.global; threads = set c.threads idx none })
    ]
    else none

-- Runs the second search where the first one has found nothing.
abbrev pub or_else :
    Collection × Option ℕ → (Collection → Collection × Option ℕ) → Collection × Option ℕ
or_else (c, some t) f = (c, some t)
or_else (c, none) f = f c

-- The index that number `i` of the loop stands for.
abbrev pub wrap : ℕ → ℕ → ℕ
wrap cnt i = if leb cnt i then i - cnt else i

-- The loop over the threads from number `i` on, `n` times, that stops at the first task.
unfoldable pub steal : ℕ → ℕ → Collection → Collection × Option ℕ
steal zero i c = (c, none)
steal (suc n) i c = or_else (try_get_thread_task (wrap (length c.threads) i) c) (steal n (suc i))

abbrev pub steal_any : ℕ → Collection → Collection × Option ℕ
steal_any random c =
    let cnt = length c.threads in if ltb 0 cnt then steal cnt (random % cnt) c else (c, none)

abbrev pub get_global : Collection → Collection × Option ℕ
get_global c = let (q, t) = try_pop_front c.global in (record c { global = q }, t)

-- The thread's own tasks, then the global ones, then those of other threads in turn, from a random
-- one on.
unfoldable pub try_get : ℕ → ℕ → Collection → Collection × Option ℕ
try_get random th_idx c =
    or_else (or_else (try_get_thread_task th_idx c) get_global) (steal_any random)

unfoldable pub put : ℕ → ℕ → Collection → Collection
put t th_idx c = elim (get_thread_queue th_idx c) [
  | none ↦ record c { global = push_back c.global t }
  | some q ↦ set_thread_queue th_idx (some (push_back q t)) c
]
