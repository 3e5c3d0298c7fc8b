-- ===== src/Task/Tests.antt =====
-- Task 1 runs on thread 0, and task 2 waits for it.
use pgasus.Common.{
  ℕ, ◌+◌, ◌^◌, ◌≤◌, ◌≡◌, refl, true, false, none, some, [], ◌∷◌, count, remove_all, ◌==◌,
  if◌then◌else◌, arith,
}
use pgasus.Sync
use pgasus.Sync.{update, is_nil}
use pgasus.Sync.Invariant.{IsLinked}
use pgasus.Sync.Signal.{woken}
use pgasus.Malloc.{Place, Local}
use pgasus.Task.{
  Task, Env, state, has_flag, is_state, running, keep_thread, schedule, yield_task, done,
}
use pgasus.Task.Finishing.{Notified, ended, AllWait, done-Notified}
use pgasus.Task.Switching.{Switched, yield_task-Switched, yield_task-stuck}

abbrev create : ℕ → ℕ
create n = 1000 + n

abbrev scheduler_of : ℕ → ℕ
scheduler_of th = 7

-- KEEP_THREAD is set for task 1.
abbrev task : ℕ → Task
task t = record {
  state_flags = if t == 1 then 2 + 2 ^ 15 else (if t == 2 then 3 else 1);
  priority = 0;
  scheduler = some 7;
  home_thread = some 0;
  context = none;
  place_stack = [];
}

abbrev local : ℕ → Local
local th = record {
  node = 0;
  msources = some 10 ∷ none ∷ [];
  thread_msource = 20;
  place_stack = if th == 0 then Place.on_node 1 ∷ [] else [];
  curr_msource = 20;
}

abbrev env : Env
env = record { tasks = task; locals = local; puts = [] }

abbrev world : Sync.World Env
world = record {
  clients = λ r. if r == 1 then 2 ∷ [] else [];
  signaled = λ r. false;
  deps = λ s. if s == 2 then 1 ∷ [] else [];
  env = env;
}

world-IsLinked : IsLinked world
unfolding count
world-IsLinked = record {
  mirrored = λ r s. ground arith;
  once = λ r s. ground arith;
  spent = λ r s h. absurd (ground (arith, h));
}

runs : is_state running 1 env ≡ true
unfolding state
runs = refl

world-AllWait : AllWait world
unfolding count state
world-AllWait c r h = ground (arith, h)

done-Notified_example :
    (w' : Sync.World Env) × (done create scheduler_of 0 1 world ≡ some w')
    × IsLinked w'
    × Notified (woken 1 world.deps (world.clients 1)) (ended create 0 1 env) w'.env
    × (w'.deps ≡ (λ c. remove_all 1 (world.deps c)))
    × (w'.env.tasks 1 ≡ (ended create 0 1 env).tasks 1)
done-Notified_example =
    done-Notified create scheduler_of 0 1 world world-IsLinked world-AllWait refl runs

once : (r : ℕ) → count r (3 ∷ 4 ∷ []) ≤ 1
unfolding count
once r = ground arith

yield_task-Switched_example :
    (e1 : Env) × (e2 : Env) × (yield_task create scheduler_of 0 1 9 env ≡ some e1)
    × (schedule create scheduler_of 3 3 1 e1 ≡ some e2)
    × Switched create 0 3 3 1 env e2
yield_task-Switched_example =
    yield_task-Switched create scheduler_of 0 3 3 1 9 env runs (omega arith) (omega arith) refl
      (omega arith, tt) refl

keeps : has_flag keep_thread (2 + 2 ^ 15) ≡ true
unfolding has_flag
keeps = refl

yield_task-stuck_example :
    (e1 : Env) × (yield_task create scheduler_of 0 1 9 env ≡ some e1)
    × (schedule create scheduler_of 0 0 1 e1 ≡ none)
yield_task-stuck_example =
    yield_task-stuck create scheduler_of 0 0 0 1 9 env runs (omega arith) refl keeps
