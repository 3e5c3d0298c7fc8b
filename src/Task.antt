-- ===== src/Task.antt =====
-- src/tasking/task_base.cpp and include/PGASUS/tasking/task.hpp: the states of a task, which is a triggerable
-- and a synchronizer with the same number. Each operation is one step, as under the task's lock; a failed
-- assertion is `none`.
pub mod Flags
pub mod Finishing
pub mod Waiting
pub mod Tests
pub mod Switching
use pgasus.Common.{
  ℕ, zero, suc, ◌+◌, ◌-◌, ◌%◌, ◌*◌, ◌/◌, ◌^◌, Bool, true, false, not, ◌&&◌, Option, none, some,
  List, [], ◌∷◌, ◌++◌, ◌==◌, if◌then◌else◌, ◌>>=◌, bit_and, bit_or,
}
use pgasus.Sync
use pgasus.Sync.{update}
use pgasus.Malloc.{Place, Local, pop_all, push_all}

-- The states.
abbrev pub ready : ℕ
ready = 1

abbrev pub running : ℕ
running = 2

abbrev pub waiting : ℕ
waiting = 3

abbrev pub suspended : ℕ
suspended = 4

abbrev pub completed : ℕ
completed = 5

-- The flags: 0x8000, 0x4000 and 0x2000, and the mask of the three.
abbrev pub keep_thread : ℕ
keep_thread = 2 ^ 15

abbrev pub keep_scheduler : ℕ
keep_scheduler = 2 ^ 14

abbrev pub has_started_flag : ℕ
has_started_flag = 2 ^ 13

abbrev pub flag_mask : ℕ
flag_mask = 2 ^ 16 - 2 ^ 13

-- `~FLAG_MASK`, as far as a word of 16 bits reads it.
abbrev state_mask : ℕ
state_mask = 2 ^ 13 - 1

unfoldable pub set_state : ℕ → ℕ → ℕ
set_state st flags = bit_or st (bit_and flags flag_mask)

unfoldable pub state : ℕ → ℕ
state flags = bit_and flags state_mask

unfoldable pub has_flag : ℕ → ℕ → Bool
has_flag flag flags = not (bit_and flags flag == 0)

pub record Task : Type 0 where
  pub state_flags : ℕ
  pub priority : ℕ
  pub scheduler : Option ℕ
  pub home_thread : Option ℕ
  pub context : Option ℕ
  pub place_stack : List Place

unfoldable pub new_task : ℕ → Task
new_task prio = record {
  state_flags = bit_or ready keep_scheduler;
  priority = prio;
  scheduler = none;
  home_thread = none;
  context = none;
  place_stack = [];
}

-- A call of `Scheduler::put_task`: the scheduler, the task and the wished thread.
pub record Put : Type 0 where
  pub to : Option ℕ
  pub task : ℕ
  pub thread : Option ℕ

-- The tasks, the thread-local storages, and the calls of put_task, in order.
pub record Env : Type 0 where
  pub tasks : ℕ → Task
  pub locals : ℕ → Local
  pub puts : List Put

abbrev pub put_state : ℕ → ℕ → Env → Env
put_state t st e = record e {
  tasks =
      update e.tasks t (record (e.tasks t) { state_flags = set_state st (e.tasks t).state_flags });
}

abbrev pub is_state : ℕ → ℕ → Env → Bool
is_state st t e = state (e.tasks t).state_flags == st

-- `Task::notify`.
unfoldable pub notify : ℕ → Env → Option Env
notify t e =
    if is_state waiting t e
    then some (record (put_state t suspended e) {
      puts =
          e.puts
          ++ (record { to = (e.tasks t).scheduler; task = t; thread = (e.tasks t).home_thread }
              ∷ []);
    })
    else none

-- `Task::run` up to the call of `do_run`.
unfoldable pub run : (ctx t : ℕ) → Env → Option Env
run ctx t e =
    if has_flag has_started_flag (e.tasks t).state_flags
    then none
    else some (record e {
      tasks = update e.tasks t (record (e.tasks t) {
        state_flags = bit_or (e.tasks t).state_flags has_started_flag;
        context = some ctx;
      });
    })

-- The places of the task move to it from the thread `me` that runs it.
abbrev save_places : (create : ℕ → ℕ) (me t : ℕ) → Env → Env
save_places create me t e =
    let (l, ps) = pop_all create (e.locals me) in
    record e {
      tasks = update e.tasks t (record (e.tasks t) { place_stack = ps });
      locals = update e.locals me l;
    }

abbrev pub same_thread : ℕ → Option ℕ → Bool
same_thread th none = false
same_thread th (some home) = th == home

-- `create` makes the source of a node, and `scheduler_of` is the scheduler of a worker thread.
module _ (create : ℕ → ℕ) (scheduler_of : ℕ → ℕ) where
  -- `Task::schedule` for the thread `th`, on the thread `me`.
  unfoldable pub schedule : (me th t : ℕ) → Env → Option Env
  schedule me th t e =
      let task = e.tasks t in
      let placed = do
        l ← push_all create task.place_stack (e.locals me)
        some (record e {
          tasks = update e.tasks t (record task {
            state_flags = set_state running task.state_flags;
            home_thread = some th;
            scheduler = some (scheduler_of th);
            place_stack = [];
          });
          locals = update e.locals me l;
        })
      in if same_thread th task.home_thread && has_flag keep_thread task.state_flags
        then none
        else placed

  -- `Task::wait` for a list.
  unfoldable pub wait : (me t : ℕ) → List ℕ → Sync.World Env → Option (Sync.World Env × Bool)
  wait me t refs w =
      let (w', waits) = Sync.synchronize t refs w in
      let blocked = record w' { env = save_places create me t (put_state t waiting w'.env) } in
      if waits
      then (if is_state running t w'.env
          then some (blocked, is_state waiting t blocked.env)
          else none)
      else some (w', is_state waiting t w'.env)

  -- `Task::yield` with the wish for a thread.
  unfoldable pub yield_task : (me t th_idx : ℕ) → Env → Option Env
  yield_task me t th_idx e =
      if is_state running t e
      then (let saved = save_places create me t (put_state t suspended e) in
          some (record saved {
            puts =
                e.puts
                ++ (record { to = (e.tasks t).scheduler; task = t; thread = some th_idx } ∷ []);
          }))
      else none

  -- `Task::done`.
  unfoldable pub done : (me t : ℕ) → Sync.World Env → Option (Sync.World Env)
  done me t w =
      let e = put_state t completed w.env in
      let ended = record w {
        env = record e { locals = update e.locals me (pop_all create (e.locals me)).0 };
      } in
      if is_state running t w.env then Sync.set_signaled notify t ended else none
