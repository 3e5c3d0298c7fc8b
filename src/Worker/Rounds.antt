-- ===== src/Worker/Rounds.antt =====
-- What single parts of a round of the loop do.
use pgasus.Common.{
  ℕ, ◌^◌, ◌<◌, ◌≡◌, ◌≢◌, refl, ap, ◌∙◌, Bool, true, false, ◌&&◌, Option, none, some, List, [], ◌∷◌,
  ◌==◌, ==_iff, arith, ◌>>=◌, if◌then◌else◌, append-nil,
}
use pgasus.Sync
use pgasus.Sync.{is_nil, update}
use pgasus.Malloc.{Local, push_all, settle}
use pgasus.Malloc.Places.{IsSettled, IsCurrent}
use pgasus.Task.{
  Env, has_flag, has_started_flag, keep_thread, is_state, running, same_thread, wait, schedule,
}
use pgasus.Task.Switching.{scheduled, schedule_lem}
use pgasus.Task.Flags.{set_state-state}
use pgasus.Worker.{
  State, cache_get, get_neutral_context, put_neutral_context, drop_task, back_in_task,
  curr_task_wait, put_curr, give_up, take_up, with_task, enter, loop_round,
}

-- A task that is dropped for a wait: the thread goes on in a neutral context.
pub record Dropped (refs : List ℕ) (s s' : State) : Type 0 where
  pub task : s'.thread.curr_task ≡ s.thread.curr_task
  pub waits : s'.thread.task_waits ≡ refs
  pub id : s'.thread.id ≡ s.thread.id
  pub done : s'.thread.done ≡ s.thread.done
  pub world : s'.world ≡ s.world
  pub context : s'.thread.curr_ctx ≡ (get_neutral_context s).1
  pub kept : s'.thread.ready_contexts ≡ (get_neutral_context s).0.thread.ready_contexts
  pub cached : s'.cache ≡ (get_neutral_context s).0.cache

abbrev pub asking : List ℕ → State → State
asking refs s = record s { thread = record s.thread { task_waits = refs } }

pub asking-Dropped : (refs : List ℕ) (s : State) → Dropped refs s (drop_task (asking refs s))
unfolding drop_task get_neutral_context cache_get
asking-Dropped refs s = ground arith

pub curr_task_wait-asking :
    (refs : List ℕ) (s : State) (t : ℕ)
    → s.thread.curr_task ≡ some t
    → curr_task_wait refs s ≡ some (drop_task (asking refs s))
unfolding curr_task_wait
curr_task_wait-asking refs s t on = rw on refl

-- push_all of no places changes nothing on a thread whose current source is right.
push_all-nil : (create : ℕ → ℕ) (l : Local) → IsSettled create l → push_all create [] l ≡ some l
unfolding push_all settle IsCurrent
push_all-nil create l settled = rw (append-nil, settled.current) refl

module _ (create scheduler_of : ℕ → ℕ) (me : ℕ) where
  pub give_up-waits :
      (s : State) (t : ℕ) (w : Sync.World Env) (b : Bool)
      → s.thread.curr_task ≡ some t
      → is_nil s.thread.task_waits ≡ false
      → wait create scheduler_of me t s.thread.task_waits s.world ≡ some (w, b)
      → give_up create scheduler_of me s
        ≡ some (
            if b
            then put_curr none
                (record s { world = w; thread = record s.thread { task_waits = [] } })
            else record s { world = w; thread = record s.thread { task_waits = [] } })
  unfolding give_up
  give_up-waits s t w b on more waited = rw (on, more, waited) refl

  pub take_up-resumes :
      (s : State) (t c : ℕ) (e : Env)
      → schedule create scheduler_of me s.thread.id t s.world.env ≡ some e
      → has_flag has_started_flag (e.tasks t).state_flags ≡ true
      → (e.tasks t).context ≡ some c
      → s.thread.curr_ctx ≢ c
      → take_up create scheduler_of me t s
        ≡ some (record s {
          world = record s.world { env = e };
          thread = record s.thread {
            curr_ctx = c;
            ready_contexts = s.thread.curr_ctx ∷ s.thread.ready_contexts;
          };
        })
  unfolding take_up back_in_task put_neutral_context
  take_up-resumes s t c e there started context apart =
      let other : (s.thread.curr_ctx == c) ≡ false = ground (arith, apart) in
      rw (there, ◌>>=◌, started, context, ◌>>=◌, other) refl

  pub schedule-again :
      (th t : ℕ) (e : Env)
      → (e.tasks t).state_flags < 2 ^ 16
      → (e.tasks t).place_stack ≡ []
      → IsSettled create (e.locals me)
      → (same_thread th (e.tasks t).home_thread && has_flag keep_thread (e.tasks t).state_flags)
        ≡ false
      → (e' : Env) × (schedule create scheduler_of me th t e ≡ some e')
        × (is_state running t e' ≡ true)
        × ((e'.tasks t).context ≡ (e.tasks t).context)
        × (has_flag has_started_flag (e'.tasks t).state_flags
            ≡ has_flag has_started_flag (e.tasks t).state_flags)
        × ((e'.locals me).place_stack ≡ (e.locals me).place_stack)
  schedule-again th t e small no_places settled free =
      let (is_running, _, _, started, _) =
        set_state-state running (e.tasks t).state_flags (omega arith) small in
      let here : (t == t) ≡ true = (==_iff t t).1 refl in
      let own : (me == me) ≡ true = (==_iff me me).1 refl in
      (
        scheduled scheduler_of me th t (e.locals me) e,
        schedule_lem create scheduler_of me th t (e.locals me) e
            (rw no_places (push_all-nil create (e.locals me) settled)) free,
        rw here ((==_iff _ _).1 is_running),
        rw here refl,
        rw here started,
        rw own refl,
      )

  pub with_task-some :
      (next : Option ℕ) (s : State) (t : ℕ)
      → s.thread.curr_task ≡ some t
      → with_task create scheduler_of me next s ≡ s
  unfolding with_task
  with_task-some next s t on = ground (arith, on)

  pub loop_round-task :
      (next : Option ℕ) (s s1 s3 : State) (t : ℕ)
      → s.thread.done ≡ false
      → give_up create scheduler_of me s ≡ some s1
      → s1.thread.curr_task ≡ some t
      → take_up create scheduler_of me t s1 ≡ some s3
      → loop_round create scheduler_of me next s ≡ some (s3, true)
  unfolding loop_round enter
  loop_round-task next s s1 s3 t going gave on took =
      rw (gave, ◌>>=◌, with_task-some next s1 t on, going)
        (ap (λ o. enter create scheduler_of me o s1) on ∙ rw took refl)

  -- A round that gives its task up goes on with the next one.
  pub loop_round-next :
      (next : Option ℕ) (s s1 : State)
      → s.thread.done ≡ false
      → give_up create scheduler_of me s ≡ some s1
      → s1.thread.curr_task ≡ none
      → loop_round create scheduler_of me next s
        ≡ enter create scheduler_of me next (put_curr next s1)
  unfolding loop_round with_task
  loop_round-next next s s1 going gave free = rw (gave, ◌>>=◌, free, going) refl
