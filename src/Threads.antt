-- ===== src/Threads.antt =====
-- src/tasking/thread_manager.*: threads with their states, and a manager with the list of threads of
-- each of its cores. Threads are numbered. A failed assertion is `none`; the calls of pthreads are
-- taken to succeed, and a joined thread to end (`run` returns). The operations run one at a time.
pub mod Registering
pub mod Ending
pub mod Tests
use pgasus.Common.{
  ℕ, zero, suc, ◌+◌, ◌-◌, Bool, true, false, ◌&&◌, Option, none, some, List, [], ◌∷◌, ◌++◌, ◌==◌,
  ltb, if◌then◌else◌, ◌>>=◌, length, get_or, set, remove_all, replicate,
}

-- `ThreadBase::State`.
pub data State : Type 0 where
  created : State
  associated : State
  running : State
  terminated : State
  floating : State

-- `_state`, `_cpuid`, and whether `_manager` is set.
pub record Thread : Type 0 where
  pub state : State
  pub cpuid : ℕ
  pub managed : Bool

unfoldable pub associate : ℕ → Thread → Option Thread
associate cpu th = elim th.state [
  | created ↦ some (record { state = State.associated; cpuid = cpu; managed = true })
  | _ ↦ none
]

unfoldable pub start : Thread → Option Thread
start th = elim th.state [ associated ↦ some (record th { state = State.running }) | _ ↦ none ]

-- Waits until `thread_func` has set the state.
unfoldable pub join : Thread → Option Thread
join th = elim th.state [
  | running ↦ some (record th { state = State.terminated })
  | terminated ↦ some th
  | floating ↦ some th
  | _ ↦ none
]

unfoldable pub release : Thread → Option Thread
release th = elim th.state [
  | terminated ↦ some (record th { state = State.floating; managed = false })
  | _ ↦ none
]

-- `_cpu_set`, `_cpu_threads`, and the threads.
pub record Manager : Type 0 where
  pub cpu_set : List ℕ
  pub cpu_threads : List (List ℕ)
  pub store : ℕ → Thread

unfoldable pub new_manager : List ℕ → (ℕ → Thread) → Manager
new_manager cpus store = record {
  cpu_set = cpus;
  cpu_threads = replicate (length cpus) [];
  store = store;
}

abbrev pub put_thread : ℕ → Thread → Manager → Manager
put_thread t th m = record m { store = λ u. if t == u then th else m.store u }

unfoldable pub holds : ℕ → List ℕ → Bool
holds t [] = false
holds t (x ∷ xs) = let rest = holds t xs in if x == t then true else rest

unfoldable pub in_lists : ℕ → List (List ℕ) → Bool
in_lists t [] = false
in_lists t (l ∷ ls) = let rest = in_lists t ls in if holds t l then true else rest

unfoldable pub manages_thread : ℕ → Manager → Bool
manages_thread t m = in_lists t m.cpu_threads

-- The loop that looks for the shortest list, from index `i` on over the lists that are left, with the
-- best core so far.
unfoldable pub best_spot : List (List ℕ) → ℕ → ℕ → List (List ℕ) → ℕ
best_spot all i core [] = core
best_spot all i core (l ∷ ls) =
    best_spot all (suc i) (if ltb (length l) (length (get_or all core [])) then i else core) ls

-- The core for a thread; `none` stands for a negative number. The loop starts at index 1.
unfoldable pub choose : Option ℕ → List (List ℕ) → ℕ
choose (some core) ls = core
choose none [] = 0
choose none (l ∷ ls) = best_spot (l ∷ ls) 1 0 ls

unfoldable pub register_thread : ℕ → Option ℕ → Manager → Option (Manager × ℕ)
register_thread t wish m =
    let core = choose wish m.cpu_threads in
    if ltb core (length m.cpu_threads)
    then (do
      th ← associate (get_or m.cpu_set core 0) (m.store t)
      th' ← start th
      some (
        put_thread t th' (record m {
          cpu_threads = set m.cpu_threads core (get_or m.cpu_threads core [] ++ t ∷ []);
        }),
        core,
      ))
    else none

-- `_cpu_to_idx`: the last index of a processor in the set, from index `i` on.
unfoldable pub cpu_to_idx : ℕ → ℕ → List ℕ → Option ℕ
cpu_to_idx cpu i [] = none
cpu_to_idx cpu i (c ∷ cs) = elim (cpu_to_idx cpu (suc i) cs) [
  | some j ↦ some j
  | none ↦ if c == cpu then some i else none
]

unfoldable pub deregister_thread : ℕ → Manager → Option Manager
deregister_thread t m =
    if manages_thread t m
    then (do
      core ← cpu_to_idx (m.store t).cpuid 0 m.cpu_set
      th ← join (m.store t)
      th' ← release th
      some (
          put_thread t th' (record m {
            cpu_threads = set m.cpu_threads core (remove_all t (get_or m.cpu_threads core []));
          })))
    else none

-- `join` and `release` on the threads of a list.
unfoldable pub end_threads : List ℕ → Manager → Option Manager
end_threads [] m = some m
end_threads (t ∷ ts) m = do
  th ← join (m.store t)
  th' ← release th
  end_threads ts (put_thread t th' m)

unfoldable pub end_lists : List (List ℕ) → Manager → Option Manager
end_lists [] m = some m
end_lists (l ∷ ls) m = end_threads l m >>= end_lists ls

unfoldable pub deregister_all : Manager → Option Manager
deregister_all m = do
  m' ← end_lists m.cpu_threads m
  some (record m' { cpu_threads = replicate (length m.cpu_threads) [] })
