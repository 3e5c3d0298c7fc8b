-- ===== src/Worker.antt =====
-- src/tasking/worker_thread.cpp and src/tasking/context.hpp: the loop of one worker thread, which runs tasks in
-- contexts. Machine contexts have numbers; a jump into one is a step of the model, and goes on where
-- that context was left. A vector is written with its back first. A failed assertion is `none`.
pub mod Rounds
pub mod Resuming
pub mod Tests
use pgasus.Common.{
  ℕ, suc, ◌+◌, Bool, true, false, Option, none, some, List, [], ◌∷◌, ◌++◌, ◌==◌, if◌then◌else◌,
  ◌>>=◌,
}
use pgasus.Sync
use pgasus.Sync.{is_nil}
use pgasus.Task.{Env, has_flag, has_started_flag}
use pgasus.Task

-- A WorkerThread; `curr_task` is `none` for a null pointer.
pub record Thread : Type 0 where
  pub id : ℕ
  pub curr_task : Option ℕ
  pub task_waits : List ℕ
  pub curr_ctx : ℕ
  pub ready_contexts : List ℕ
  pub done : Bool

-- The thread, the `_data` of the ContextCache of its scheduler, the number of the next context that is
-- made, and the tasks.
pub record State : Type 0 where
  pub thread : Thread
  pub cache : List ℕ
  pub fresh : ℕ
  pub world : Sync.World Env

-- `ContextCache::get`.
unfoldable pub cache_get : State → State × ℕ
cache_get s = elim s.cache [
  | [] ↦ (record s { fresh = suc s.fresh }, s.fresh)
  | c ∷ cs ↦ (record s { cache = cs }, c)
]

-- `ContextCache::store`.
unfoldable pub cache_store : ℕ → State → State
cache_store c s = record s { cache = c ∷ s.cache }

unfoldable pub get_neutral_context : State → State × ℕ
get_neutral_context s = elim s.thread.ready_contexts [
  | [] ↦ cache_get s
  | c ∷ cs ↦ (record s { thread = record s.thread { ready_contexts = cs } }, c)
]

unfoldable pub put_neutral_context : ℕ → State → State
put_neutral_context c s = record s {
  thread = record s.thread { ready_contexts = c ∷ s.thread.ready_contexts };
}

-- `~WorkerThread`: the contexts go back to the cache.
unfoldable pub store_all : List ℕ → State → State
store_all [] s = s
store_all (c ∷ cs) s = store_all cs (cache_store c s)

-- `drop_task`, up to the jump into a neutral context, where the loop goes on.
unfoldable pub drop_task : State → State
drop_task s =
    let (s', c) = get_neutral_context s in record s' { thread = record s'.thread { curr_ctx = c } }

-- What `drop_task` does when the task runs again, in its own context.
unfoldable pub back_in_task : ℕ → State → Option State
back_in_task new_ctx s =
    if s.thread.curr_ctx == new_ctx
    then none
    else (let kept = put_neutral_context s.thread.curr_ctx s in
        some (record kept { thread = record kept.thread { curr_ctx = new_ctx } }))

-- `curr_task_wait` asserts that there is a task.
unfoldable pub curr_task_wait : List ℕ → State → Option State
curr_task_wait tasks s = elim s.thread.curr_task [
  | none ↦ none
  | some t ↦ some (drop_task (record s { thread = record s.thread { task_waits = tasks } }))
]

unfoldable pub yield : State → Option State
yield s = curr_task_wait [] s

unfoldable pub shutdown : State → State
shutdown s = record s { thread = record s.thread { done = true } }

abbrev pub put_curr : Option ℕ → State → State
put_curr t s = record s { thread = record s.thread { curr_task = t } }

-- `create` and `scheduler_of` are those of a task, and `me` is the thread's local storage.
module _ (create scheduler_of : ℕ → ℕ) (me : ℕ) where
  -- The first part of the loop: a task that was interrupted yields or waits.
  unfoldable pub give_up : State → Option State
  give_up s = elim s.thread.curr_task [
    | none ↦ some s
    | some t ↦
        let yielded = do
          e ← Task.yield_task create scheduler_of me t s.thread.id s.world.env
          some (put_curr none (record s { world = record s.world { env = e } }))
        in let waited = do
          (w, blocks) ← Task.wait create scheduler_of me t s.thread.task_waits s.world
          let s' : State = record s { world = w; thread = record s.thread { task_waits = [] } }
          some (if blocks then put_curr none s' else s')
          in if is_nil s.thread.task_waits then yielded else waited
  ]

  -- The last part of the loop, up to the point where the task runs.
  unfoldable pub take_up : ℕ → State → Option State
  take_up t s = do
    e ← Task.schedule create scheduler_of me s.thread.id t s.world.env
    let s' : State = record s { world = record s.world { env = e } }
    let started = (e.tasks t).context >>= λ c. back_in_task c s'
    let fresh_start = Task.run s.thread.curr_ctx t e >>= λ e'.
        some (record s' { world = record s.world { env = e' } })
    elim (has_flag has_started_flag (e.tasks t).state_flags) as (λ _. Option State) [
      | true ↦ started
      | false ↦ fresh_start
    ]

  -- The task that the loop has at its middle, where `get_new_task` returns `next`.
  unfoldable pub with_task : Option ℕ → State → State
  with_task next s = elim s.thread.curr_task [ none ↦ put_curr next s | some t ↦ s ]

  -- The end of a round: without a task the thread leaves the loop.
  unfoldable pub enter : Option ℕ → State → Option (State × Bool)
  enter none s = some (s, false)
  enter (some t) s = take_up t s >>= λ s'. some (s', true)

  -- One round of the loop in `start_new_context`, where `get_new_task` returns `next`: whether a task runs then, or the
  -- thread leaves the loop.
  unfoldable pub loop_round : Option ℕ → State → Option (State × Bool)
  loop_round next s =
      let round = do
        s1 ← give_up s
        let s2 : State = with_task next s1
        enter s2.thread.curr_task s2
      in if s.thread.done then some (s, false) else round

  -- What follows the end of a task's body.
  unfoldable pub end_task : State → Option State
  end_task s = elim s.thread.curr_task [
    | none ↦ none
    | some t ↦ do
      w ← Task.done create scheduler_of me t s.world
      some (put_curr none (record s { world = w }))
  ]
