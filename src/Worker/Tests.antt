-- ===== src/Worker/Tests.antt =====
-- Task 1 runs on worker 0 in context 5, and has started there; task 3 is completed and task 4 is not.
use pgasus.Common.{
  ℕ, ◌+◌, ◌^◌, ◌≤◌, ◌≡◌, refl, true, false, none, some, [], ◌∷◌, count, ◌==◌, if◌then◌else◌, arith,
}
use pgasus.Sync
use pgasus.Sync.{is_nil}
use pgasus.Sync.Invariant.{IsLinked, pending}
use pgasus.Malloc.{Place, Local, get_curr_msource, back, get_place_msource}
use pgasus.Malloc.Places.{IsSettled, IsCurrent}
use pgasus.Task.{Task, Env, state, has_flag, has_started_flag, keep_thread, is_state, running}
use pgasus.Task.Waiting.{Blocked}
use pgasus.Worker.{State, get_neutral_context, curr_task_wait, give_up, loop_round, enter, put_curr}
use pgasus.Worker.Resuming.{Resumed, curr_task_wait-Resumed, curr_task_wait-Blocked}

abbrev create : ℕ → ℕ
create n = 1000 + n

abbrev scheduler_of : ℕ → ℕ
scheduler_of th = 7

-- RUNNING with HAS_STARTED.
abbrev task : ℕ → Task
task t = record {
  state_flags = 2 + 2 ^ 13;
  priority = 0;
  scheduler = some 7;
  home_thread = some 0;
  context = some 5;
  place_stack = [];
}

abbrev local : ℕ → Local
local th = record {
  node = 0;
  msources = some 10 ∷ none ∷ [];
  thread_msource = 20;
  place_stack = Place.on_source 30 ∷ [];
  curr_msource = 30;
}

abbrev env : Env
env = record { tasks = task; locals = local; puts = [] }

abbrev world : Sync.World Env
world = record {
  clients = λ r. [];
  signaled = λ r. if r == 3 then true else false;
  deps = λ s. [];
  env = env;
}

world-IsLinked : IsLinked world
unfolding count
world-IsLinked = record { mirrored = λ r s. refl; once = λ r s. omega arith; spent = λ r s h. refl }

abbrev before : State
before = record {
  thread = record {
    id = 0;
    curr_task = some 1;
    task_waits = [];
    curr_ctx = 5;
    ready_contexts = 6 ∷ [];
    done = false;
  };
  cache = 8 ∷ [];
  fresh = 9;
  world = world;
}

runs : is_state running 1 env ≡ true
unfolding state
runs = refl

local-IsSettled : IsSettled create (local 0)
unfolding IsCurrent get_curr_msource back get_place_msource
local-IsSettled = record { current = refl; ranged = (tt, tt) }

started : has_flag has_started_flag (2 + 2 ^ 13) ≡ true
unfolding has_flag
started = refl

keeps_no_thread : has_flag keep_thread (2 + 2 ^ 13) ≡ false
unfolding has_flag
keeps_no_thread = refl

completed : pending world.signaled (3 ∷ []) ≡ []
unfolding pending
completed = refl

neutral : (get_neutral_context before).1 ≡ 6
unfolding get_neutral_context
neutral = refl

once : (a r : ℕ) → count r (a ∷ []) ≤ 1
unfolding count
once a r = ground arith

curr_task_wait-Resumed_example :
    (s1 : State) × (s2 : State) × (curr_task_wait (3 ∷ []) before ≡ some s1)
    × (loop_round create scheduler_of 0 none s1 ≡ some (s2, true))
    × Resumed create scheduler_of 0 1 before s2
curr_task_wait-Resumed_example =
    curr_task_wait-Resumed create scheduler_of 0 none (3 ∷ []) before 1 refl refl refl
      world-IsLinked refl (once 3) completed runs (omega arith) started refl refl local-IsSettled
      keeps_no_thread (λ e. absurd (omega (arith, e, neutral)))

open_wait : is_nil (pending world.signaled (3 ∷ 4 ∷ [])) ≡ false
unfolding pending
open_wait = refl

once_each : (r : ℕ) → count r (3 ∷ 4 ∷ []) ≤ 1
unfolding count
once_each r = ground arith

curr_task_wait-Blocked_example :
    (s1 : State) × (s2 : State) × (curr_task_wait (3 ∷ 4 ∷ []) before ≡ some s1)
    × (give_up create scheduler_of 0 s1 ≡ some s2)
    × (loop_round create scheduler_of 0 none s1
        ≡ enter create scheduler_of 0 none (put_curr none s2))
    × (s2.thread.curr_task ≡ none)
    × (s2.thread.task_waits ≡ [])
    × (s2.thread.curr_ctx ≡ (get_neutral_context before).1)
    × (s2.thread.ready_contexts ≡ (get_neutral_context before).0.thread.ready_contexts)
    × (s2.world.deps 1 ≡ pending world.signaled (3 ∷ 4 ∷ []))
    × Blocked 0 1 env s2.world.env
curr_task_wait-Blocked_example =
    curr_task_wait-Blocked create scheduler_of 0 none (3 ∷ 4 ∷ []) before 1 refl refl refl
      world-IsLinked refl once_each open_wait runs (omega arith)
