-- ===== src/Task/Waiting.antt =====
-- A running task waits for others, unless they are all completed.
use pgasus.Common.{
  ℕ, ◌^◌, ◌≤◌, ◌<◌, ◌≡◌, ◌⊎◌, refl, true, false, not, some, List, [], count, ◌==◌, ==_iff, arith,
  Bool-cases, inl, inr,
}
use pgasus.Sync
use pgasus.Sync.{update, is_nil, synchronize}
use pgasus.Sync.Invariant.{IsLinked, pending, synchronize-Depended}
use pgasus.Malloc.{pop_all}
use pgasus.Task.{Env, is_state, put_state, save_places, running, waiting, wait}
use pgasus.Task.Flags.{set_state-state}

-- The outcome of wait: the world, and whether the task is blocked.
pub record Blocked (me t : ℕ) (e e' : Env) : Type 0 where
  pub waits : is_state waiting t e' ≡ true
  pub places : (e'.tasks t).place_stack ≡ (e.locals me).place_stack
  pub left : (e'.locals me).place_stack ≡ []

blocked_lem :
    (create : ℕ → ℕ) (me t : ℕ) (e : Env)
    → (e.tasks t).state_flags < 2 ^ 16
    → Blocked me t e (save_places create me t (put_state t waiting e))
unfolding pop_all
blocked_lem create me t e small =
    let (is_waiting, _, _, _, _) =
      set_state-state waiting (e.tasks t).state_flags (omega arith) small in
    let here : (t == t) ≡ true = (==_iff t t).1 refl in
    record {
      waits = rw here ((==_iff _ _).1 is_waiting);
      places = rw here refl;
      left = rw ((==_iff me me).1 refl) refl;
    }

-- wait of a running task without dependencies, for a list without duplicates: the task then depends on
-- exactly those of the list that have not been signaled, in order. It is blocked, in the state WAITING with
-- the places of its thread, if there is one, and else it runs on and no task or thread has changed.
pub wait-Blocked :
    (create scheduler_of : ℕ → ℕ) (me t : ℕ) (refs : List ℕ) (w : Sync.World Env)
    → IsLinked w
    → w.deps t ≡ []
    → ((r : ℕ) → count r refs ≤ 1)
    → is_state running t w.env ≡ true
    → (w.env.tasks t).state_flags < 2 ^ 16
    → (w' : Sync.World Env) × (wait create scheduler_of me t refs w
        ≡ some (w', not (is_nil (pending w.signaled refs))))
      × (w'.deps t ≡ pending w.signaled refs)
      × (((is_nil (pending w.signaled refs) ≡ true) × (w'.env ≡ w.env))
          ⊎ ((is_nil (pending w.signaled refs) ≡ false) × Blocked me t w.env w'.env))
unfolding wait
wait-Blocked create scheduler_of me t refs w l none_yet once runs small =
    let (depended, deps, waits) = synchronize-Depended t refs w l none_yet once in
    elim (Bool-cases (is_nil (pending w.signaled refs))) [
      | inl e ↦
          let quiet : is_state waiting t (synchronize t refs w).0.env ≡ false =
            rw depended.env (ground (arith, runs)) in
          ((synchronize t refs w).0, rw (waits, e, quiet) refl, deps, inl (e, depended.env))
      | inr e ↦
          let runs' : is_state running t (synchronize t refs w).0.env ≡ true =
            rw depended.env runs in
          let b : Blocked me t w.env
              (save_places create me t (put_state t waiting (synchronize t refs w).0.env)) =
            rw depended.env (blocked_lem create me t w.env small) in
          let w' : Sync.World Env = record (synchronize t refs w).0 {
            env = save_places create me t (put_state t waiting (synchronize t refs w).0.env);
          } in
          (w', rw (waits, e, runs', b.waits) refl, deps, inr (e, b))
    ]
