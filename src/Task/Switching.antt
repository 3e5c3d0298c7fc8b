-- ===== src/Task/Switching.antt =====
-- A task that yields on one thread and is scheduled on another one.
use pgasus.Common.{
  All, ℕ, ◌^◌, ◌<◌, ◌≡◌, ◌≢◌, refl, ◌∙◌, true, false, ◌&&◌, none, some, [], ◌∷◌, ◌++◌, ◌==◌, ==_iff,
  arith, length,
}
use pgasus.Sync.{update}
use pgasus.Malloc.{Local, pop_all, push_all}
use pgasus.Malloc.Places.{InRange, IsSettled}
use pgasus.Malloc.Moving.{push_all-pop_all}
use pgasus.Task.{
  Env, set_state, has_flag, is_state, put_state, same_thread, running, suspended, keep_thread,
  schedule, yield_task,
}
use pgasus.Task.Flags.{set_state-state}

-- What becomes of the task and the two threads.
pub record Switched (create : ℕ → ℕ) (me other th t : ℕ) (e e2 : Env) : Type 0 where
  pub runs : is_state running t e2 ≡ true
  pub home : (e2.tasks t).home_thread ≡ some th
  pub kept :
      has_flag keep_thread (e2.tasks t).state_flags ≡ has_flag keep_thread (e.tasks t).state_flags
  pub moved : (e2.locals other).place_stack ≡ (e.locals me).place_stack
  pub settled : IsSettled create (e2.locals other)
  pub left : (e2.locals me).place_stack ≡ []

-- The task after yield_task, on the thread `me`.
abbrev yielded : (create : ℕ → ℕ) (me t th_idx : ℕ) → Env → Env
yielded create me t th_idx e = record e {
  tasks =
      update (put_state t suspended e).tasks t
        (record ((put_state t suspended e).tasks t) { place_stack = (e.locals me).place_stack });
  locals = update e.locals me (pop_all create (e.locals me)).0;
  puts = e.puts ++ (record { to = (e.tasks t).scheduler; task = t; thread = some th_idx } ∷ []);
}

yield_lem :
    (create scheduler_of : ℕ → ℕ) (me t th_idx : ℕ) (e : Env)
    → is_state running t e ≡ true
    → yield_task create scheduler_of me t th_idx e ≡ some (yielded create me t th_idx e)
unfolding yield_task pop_all
yield_lem create scheduler_of me t th_idx e runs = rw runs refl

-- The task after schedule for the thread `th`, on the thread `me`, whose places become those of `l`.
abbrev pub scheduled : (scheduler_of : ℕ → ℕ) (me th t : ℕ) → Local → Env → Env
scheduled scheduler_of me th t l e = record e {
  tasks = update e.tasks t (record (e.tasks t) {
    state_flags = set_state running (e.tasks t).state_flags;
    home_thread = some th;
    scheduler = some (scheduler_of th);
    place_stack = [];
  });
  locals = update e.locals me l;
}

pub schedule_lem :
    (create scheduler_of : ℕ → ℕ) (me th t : ℕ) (l : Local) (e : Env)
    → push_all create (e.tasks t).place_stack (e.locals me) ≡ some l
    → (same_thread th (e.tasks t).home_thread && has_flag keep_thread (e.tasks t).state_flags)
      ≡ false
    → schedule create scheduler_of me th t e ≡ some (scheduled scheduler_of me th t l e)
unfolding schedule
schedule_lem create scheduler_of me th t l e pushed free = rw (free, pushed) refl

-- A running task that yields on a thread and is scheduled on another one, which has no places and may run
-- it: it runs there with its places, in order, and keeps the flag for its thread; the first thread has no
-- places then.
pub yield_task-Switched :
    (create scheduler_of : ℕ → ℕ) (me other th t th_idx : ℕ) (e : Env)
    → is_state running t e ≡ true
    → (e.tasks t).state_flags < 2 ^ 16
    → me ≢ other
    → (e.locals other).place_stack ≡ []
    → All (InRange (length (e.locals other).msources)) (e.locals me).place_stack
    → (same_thread th (e.tasks t).home_thread && has_flag keep_thread (e.tasks t).state_flags)
      ≡ false
    → (e1 : Env) × (e2 : Env) × (yield_task create scheduler_of me t th_idx e ≡ some e1)
      × (schedule create scheduler_of other th t e1 ≡ some e2)
      × Switched create me other th t e e2
unfolding pop_all
yield_task-Switched create scheduler_of me other th t th_idx e runs small apart empty ranged free =
    let (l, pushed, settled, same, _, _) =
      push_all-pop_all create (e.locals me) (e.locals other) empty ranged in
    let (is_suspended, keep, _, _, small') =
      set_state-state suspended (e.tasks t).state_flags (omega arith) small in
    let (is_running, keep', _, _, _) =
      set_state-state running (set_state suspended (e.tasks t).state_flags) (omega arith) small' in
    let here : (t == t) ≡ true = (==_iff t t).1 refl in
    let far : (me == other) ≡ false = ground (arith, apart) in
    let far' : (other == me) ≡ false = ground (arith, apart) in
    (
      yielded create me t th_idx e,
      scheduled scheduler_of other th t l (yielded create me t th_idx e),
      yield_lem create scheduler_of me t th_idx e runs,
      schedule_lem create scheduler_of other th t l (yielded create me t th_idx e)
          (rw (here, far) pushed) (rw (here, keep) free),
      record {
        runs = rw here ((==_iff _ _).1 is_running);
        home = rw here refl;
        kept = rw here (keep' ∙ keep);
        moved = rw ((==_iff other other).1 refl) same;
        settled = rw ((==_iff other other).1 refl) settled;
        left = rw (far', (==_iff me me).1 refl) refl;
      },
    )

-- A running task that is to keep its thread, and yields: the assertion of schedule fails when the task is
-- scheduled on that thread again.
pub yield_task-stuck :
    (create scheduler_of : ℕ → ℕ) (me other th t th_idx : ℕ) (e : Env)
    → is_state running t e ≡ true
    → (e.tasks t).state_flags < 2 ^ 16
    → (e.tasks t).home_thread ≡ some th
    → has_flag keep_thread (e.tasks t).state_flags ≡ true
    → (e1 : Env) × (yield_task create scheduler_of me t th_idx e ≡ some e1)
      × (schedule create scheduler_of other th t e1 ≡ none)
unfolding schedule
yield_task-stuck create scheduler_of me other th t th_idx e runs small home keeps =
    let (is_suspended, keep, _, _, _) =
      set_state-state suspended (e.tasks t).state_flags (omega arith) small in
    let here : (t == t) ≡ true = (==_iff t t).1 refl in
    let own : (th == th) ≡ true = (==_iff th th).1 refl in
    (
      yielded create me t th_idx e,
      yield_lem create scheduler_of me t th_idx e runs,
      rw (here, home, own, keep, keeps) refl,
    )
