-- ===== src/Worker/Resuming.antt =====
-- A task that waits for tasks which are all completed, and one that has to wait.
use pgasus.Common.{
  ℕ, ◌^◌, ◌≤◌, ◌<◌, ◌≡◌, ◌≢◌, refl, sym, ap, ◌∙◌, true, false, ◌&&◌, not, Option, none, some, List,
  [], ◌∷◌, count, arith, inl, inr,
}
use pgasus.Sync.{is_nil}
use pgasus.Sync.Invariant.{IsLinked, pending}
use pgasus.Malloc.Places.{IsSettled}
use pgasus.Task.{
  has_flag, has_started_flag, keep_thread, is_state, running, same_thread, wait, schedule,
}
use pgasus.Task.Waiting.{wait-Blocked, Blocked}
use pgasus.Worker.{
  State, get_neutral_context, drop_task, curr_task_wait, put_curr, enter, give_up, loop_round,
}
use pgasus.Worker.Rounds.{
  asking, asking-Dropped, curr_task_wait-asking, give_up-waits, take_up-resumes, schedule-again,
  loop_round-task, loop_round-next,
}

module _ (create scheduler_of : ℕ → ℕ) (me : ℕ) where
  -- The world of a task that need not wait, after the wait and the schedule.
  pub record Resumed (t : ℕ) (s s2 : State) : Type 0 where
    pub task : s2.thread.curr_task ≡ some t
    pub waits : s2.thread.task_waits ≡ []
    pub context : s2.thread.curr_ctx ≡ s.thread.curr_ctx
    pub runs : is_state running t s2.world.env ≡ true
    pub places : (s2.world.env.locals me).place_stack ≡ (s.world.env.locals me).place_stack
    pub kept :
        s2.thread.ready_contexts
        ≡ (get_neutral_context s).1 ∷ (get_neutral_context s).0.thread.ready_contexts
    pub cached : s2.cache ≡ (get_neutral_context s).0.cache

  -- A task of the thread that waits for tasks, all completed, and may be scheduled here: after the next round of
  -- the loop it runs on, in its own context and with its places; the neutral context of that round is ready
  -- for use again, and no other context has moved.
  pub curr_task_wait-Resumed :
      (next : Option ℕ) (refs : List ℕ) (s : State) (t : ℕ)
      → s.thread.curr_task ≡ some t
      → s.thread.done ≡ false
      → is_nil refs ≡ false
      → IsLinked s.world
      → s.world.deps t ≡ []
      → ((r : ℕ) → count r refs ≤ 1)
      → pending s.world.signaled refs ≡ []
      → is_state running t s.world.env ≡ true
      → (s.world.env.tasks t).state_flags < 2 ^ 16
      → has_flag has_started_flag (s.world.env.tasks t).state_flags ≡ true
      → (s.world.env.tasks t).context ≡ some s.thread.curr_ctx
      → (s.world.env.tasks t).place_stack ≡ []
      → IsSettled create (s.world.env.locals me)
      → (same_thread s.thread.id (s.world.env.tasks t).home_thread
          && has_flag keep_thread (s.world.env.tasks t).state_flags)
        ≡ false
      → (get_neutral_context s).1 ≢ s.thread.curr_ctx
      → (s1 : State) × (s2 : State) × (curr_task_wait refs s ≡ some s1)
        × (loop_round create scheduler_of me next s1 ≡ some (s2, true))
        × Resumed t s s2
  curr_task_wait-Resumed next refs s t on going more linked free_deps once completed runs small
        started context no_places settled free apart =
      let s1 = drop_task (asking refs s) in
      let d = asking-Dropped refs s in
      let (w, waited, _, outcome) =
        wait-Blocked create scheduler_of me t refs s.world linked free_deps once runs small in
      let ready : is_nil (pending s.world.signaled refs) ≡ true = ap is_nil completed in
      let same : w.env ≡ s.world.env = elim outcome [
        | inl (_, e) ↦ e
        | inr (waits, _) ↦ absurd (ground (arith, ready, waits))
      ] in
      let here : wait create scheduler_of me t s1.thread.task_waits s1.world ≡ some (w, false) =
        rw (d.waits, d.world) (waited ∙ ap (λ b. some (w, not b)) ready) in
      let gave =
        give_up-waits create scheduler_of me s1 t w false (d.task ∙ on) (ap is_nil d.waits ∙ more)
          here in
      let (e, scheduled_again, runs', context', started', places') =
        schedule-again create scheduler_of me s.thread.id t s.world.env small no_places settled
          free in
      let s2 : State = record s1 { world = w; thread = record s1.thread { task_waits = [] } } in
      let there : schedule create scheduler_of me s2.thread.id t s2.world.env ≡ some e =
        rw (d.id, same) scheduled_again in
      let took =
        take_up-resumes create scheduler_of me s2 t s.thread.curr_ctx e there (started' ∙ started)
          (context' ∙ context) (λ q. apart (sym d.context ∙ q)) in
      (
        s1,
        record s2 {
          world = record w { env = e };
          thread = record s2.thread {
            curr_ctx = s.thread.curr_ctx;
            ready_contexts = s1.thread.curr_ctx ∷ s1.thread.ready_contexts;
          };
        },
        curr_task_wait-asking refs s t on,
        loop_round-task create scheduler_of me next s1 s2
            (record s2 {
              world = record w { env = e };
              thread = record s2.thread {
                curr_ctx = s.thread.curr_ctx;
                ready_contexts = s1.thread.curr_ctx ∷ s1.thread.ready_contexts;
              };
            })
            t (d.done ∙ going) gave (d.task ∙ on) took,
        record {
          task = d.task ∙ on;
          waits = refl;
          context = refl;
          runs = runs';
          places = places';
          kept = rw (d.context, d.kept) refl;
          cached = d.cached;
        },
      )

  -- A task of a thread that is not shut down waits for tasks of which some are not completed: the next round of the
  -- loop gives it up, and does with the task that the thread gets next, if any, what a round does that
  -- starts with this task in the neutral context. The task that waits depends on exactly those, is in the
  -- state WAITING, and has the places of the thread, which is left without places.
  pub curr_task_wait-Blocked :
      (next : Option ℕ) (refs : List ℕ) (s : State) (t : ℕ)
      → s.thread.curr_task ≡ some t
      → s.thread.done ≡ false
      → is_nil refs ≡ false
      → IsLinked s.world
      → s.world.deps t ≡ []
      → ((r : ℕ) → count r refs ≤ 1)
      → is_nil (pending s.world.signaled refs) ≡ false
      → is_state running t s.world.env ≡ true
      → (s.world.env.tasks t).state_flags < 2 ^ 16
      → (s1 : State) × (s2 : State) × (curr_task_wait refs s ≡ some s1)
        × (give_up create scheduler_of me s1 ≡ some s2)
        × (loop_round create scheduler_of me next s1
            ≡ enter create scheduler_of me next (put_curr next s2))
        × (s2.thread.curr_task ≡ none)
        × (s2.thread.task_waits ≡ [])
        × (s2.thread.curr_ctx ≡ (get_neutral_context s).1)
        × (s2.thread.ready_contexts ≡ (get_neutral_context s).0.thread.ready_contexts)
        × (s2.world.deps t ≡ pending s.world.signaled refs)
        × Blocked me t s.world.env s2.world.env
  curr_task_wait-Blocked next refs s t on going more linked free_deps once waits runs small =
      let s1 = drop_task (asking refs s) in
      let d = asking-Dropped refs s in
      let (w, waited, deps, outcome) =
        wait-Blocked create scheduler_of me t refs s.world linked free_deps once runs small in
      let blocked : Blocked me t s.world.env w.env = elim outcome [
        | inl (ready, _) ↦ absurd (ground (arith, ready, waits))
        | inr (_, b) ↦ b
      ] in
      let here : wait create scheduler_of me t s1.thread.task_waits s1.world ≡ some (w, true) =
        rw (d.waits, d.world) (waited ∙ ap (λ b. some (w, not b)) waits) in
      let s2 : State =
        put_curr none (record s1 { world = w; thread = record s1.thread { task_waits = [] } }) in
      let gave : give_up create scheduler_of me s1 ≡ some s2 =
        give_up-waits create scheduler_of me s1 t w true (d.task ∙ on) (ap is_nil d.waits ∙ more)
          here in
      (
        s1,
        s2,
        curr_task_wait-asking refs s t on,
        gave,
        loop_round-next create scheduler_of me next s1 s2 (d.done ∙ going) gave refl,
        refl,
        refl,
        d.context,
        d.kept,
        deps,
        blocked,
      )
